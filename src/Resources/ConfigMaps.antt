-- ===== src/Resources/ConfigMaps.antt =====
-- internal/resources/configmap.go, the getters of internal/resources/getters.go that it and the
-- planner need, and `updateConfiguration` and `pruneConfiguration`. Logging and events are left out.
pub mod Stored
pub mod NilData
pub mod Pruned
pub mod Writes
pub mod Kept
use samba_operator.Base.{String, ◌<>◌, ◌==◌, ◌!=◌, Bool, true, false, Option, none, some}
use samba_operator.Base.{List, [], ◌∷◌, if◌then◌else◌, is_some}
use samba_operator.Base.Dict.{Dict, lookup, insert}
use samba_operator.Base.Panics.{Run, returns, panics}
use samba_operator.Api.Meta.{ObjectMeta, OwnerReference, NamespacedName}
use samba_operator.Api.SmbShare.{SmbShare}
use samba_operator.Api.SmbSecurityConfig.{SmbSecurityConfig}
use samba_operator.Api.SmbCommonConfig.{SmbCommonConfig}
use samba_operator.Conf.{OperatorConfig}
use samba_operator.Smbcc.{SambaContainerConfig, new}
use samba_operator.Planner.Instance.{InstanceConfiguration, Planner}
use samba_operator.Planner.Compatible.{IncompatibleInstanceError, error_text, check_compatible}
use samba_operator.Planner.Configuration.{Change, update, prune}
use samba_operator.Resources.Outcome.{Error, failed}
use samba_operator.Resources.Kube.{Client, Codec, ConfigMap, Reply}
use samba_operator.Resources.Ownership.{owner_shares_excluding}
use samba_operator.Resources.Attempt.{
  Attempt, gives, errs, crashes, ◌>>=◌, ◌>>◌, of_run, of_reply, or_error,
}

abbrev pub config_json_key : String
config_json_key = "config.json"

-- A read of a nil map finds nothing.
abbrev pub stored_text : ConfigMap → Option String
stored_text cm = elim cm.entries [ none ↦ none | some m ↦ lookup config_json_key m ]

-- Nothing but the absence of an error.
abbrev Fine : Type 0
Fine = Unit

abbrev live_only : SmbShare → Attempt Fine
live_only s =
    if is_some s.metadata.deletion_timestamp
    then errs (failed ("updateConfiguration called for deleted SmbShare: " <> s.metadata.name))
    else gives tt

abbrev deleted_only : SmbShare → Attempt Fine
deleted_only s =
    if is_some s.metadata.deletion_timestamp
    then gives tt
    else errs
        (failed ("pruneConfiguration called for SmbShare not being deleted: " <> s.metadata.name))

-- A write to a nil map panics.
put_text : ConfigMap → String → Attempt ConfigMap
unfolding insert
put_text cm text = elim cm.entries [
  | none ↦ crashes
  | some m ↦ gives (record cm { entries = some (insert config_json_key text m) })
]

module _ (codec : Codec) where
  unfoldable pub new_default_config_map : String → String → Attempt ConfigMap
  new_default_config_map name ns = do
    text ← or_error (failed "json: unsupported value") (codec.marshal new)
    gives (record {
      metadata = record {
        name = name;
        namespace = ns;
        uid = "";
        labels = [];
        annotations = [];
        owner_references = [];
        finalizers = [];
        deletion_timestamp = none;
      };
      entries = some ((config_json_key, text) ∷ []);
    })

  decode : Option String → Attempt SambaContainerConfig
  decode none = gives new
  decode (some text) = or_error (failed "json: invalid text") (codec.unmarshal text)

  unfoldable pub get_container_config : ConfigMap → Attempt SambaContainerConfig
  unfolding decode lookup
  get_container_config cm = decode (stored_text cm)

  unfoldable pub set_container_config : ConfigMap → SambaContainerConfig → Attempt ConfigMap
  unfolding put_text
  set_container_config cm state = do
    text ← or_error (failed "json: unsupported value") (codec.marshal state)
    put_text cm text

module _ {W : Type 0} (client : Client W) (w : W) where
  unfoldable pub get_security_config : SmbShare → Attempt (Option SmbSecurityConfig)
  get_security_config s =
      let fetched : Attempt (Option SmbSecurityConfig) = (do
        c ← of_reply (
            client.security_configs.get w
              (record { namespace = s.metadata.namespace; name = s.spec.security_config }))
        gives (some c)) in
      if s.spec.security_config == "" then gives none else fetched

  unfoldable pub get_common_config : SmbShare → Attempt (Option SmbCommonConfig)
  get_common_config s =
      let fetched : Attempt (Option SmbCommonConfig) = (do
        c ← of_reply (
            client.common_configs.get w
              (record { namespace = s.metadata.namespace; name = s.spec.common_config }))
        gives (some c)) in
      if s.spec.common_config == "" then gives none else fetched

  unfoldable pub get_smb_share_by_name : NamespacedName → Attempt SmbShare
  get_smb_share_by_name name = of_reply (client.shares.get w name)

  module _ (cfg : OperatorConfig) where
    unfoldable pub get_share_instance : SmbShare → Attempt InstanceConfiguration
    unfolding get_security_config get_common_config
    get_share_instance s = do
      security ← get_security_config s
      common ← get_common_config s
      gives (record {
        smb_share = some s;
        security_config = security;
        common_config = common;
        global_config = cfg;
      })

    incompatible_error : Option IncompatibleInstanceError → Attempt Fine
    unfolding error_text
    incompatible_error none = gives tt
    incompatible_error (some e) = errs (failed (error_text e))

    -- The first of the other shares of the group is the one to agree with.
    check_others : InstanceConfiguration → List NamespacedName → Attempt Fine
    unfolding get_smb_share_by_name get_share_instance incompatible_error check_compatible
    check_others instance_config [] = gives tt
    check_others instance_config (name ∷ names) = do
      other ← get_smb_share_by_name name
      other_config ← get_share_instance other
      verdict ← of_run (check_compatible instance_config other_config)
      incompatible_error verdict

    planner_of : SmbShare → InstanceConfiguration → Planner
    planner_of s ic = record {
      smb_share = s;
      security_config = ic.security_config;
      common_config = ic.common_config;
      global_config = ic.global_config;
    }

    -- The planner of a share that may use the config map with these owners.
    unfoldable pub admit :
        (String → Option String) → List OwnerReference → SmbShare → Attempt Planner
    unfolding owner_shares_excluding get_share_instance check_others planner_of
    admit group_of refs s = do
      others ←
          or_error (failed "unable to parse an API version")
            (owner_shares_excluding group_of refs s)
      live_only s
      ic ← get_share_instance s
      check_others ic others
      gives (planner_of s ic)

    -- The planner, and what it makes of the configuration that is stored.
    unfoldable pub plan_configuration :
        (String → Option String) → Codec → ConfigMap → SmbShare → Attempt (Planner × Change)
    unfolding get_container_config admit update
    plan_configuration group_of codec cm s = do
      state ← get_container_config codec cm
      pl ← admit group_of cm.metadata.owner_references s
      r ← of_run (update pl state)
      gives (pl, r)

-- A minimal planner: pruning asks for no other settings.
abbrev pub minimal_planner : OperatorConfig → SmbShare → Planner
minimal_planner cfg s = record {
  smb_share = s;
  security_config = none;
  common_config = none;
  global_config = cfg;
}

unfoldable pub plan_prune : OperatorConfig → Codec → ConfigMap → SmbShare → Attempt Change
unfolding get_container_config prune
plan_prune cfg codec cm s = do
  state ← get_container_config codec cm
  deleted_only s
  gives (prune (minimal_planner cfg s) state)

written : {A : Type 0} → A → Option Error → Attempt A
written a none = gives a
written a (some e) = errs e

module _ {W : Type 0} (client : Client W) where
  -- What was put into the config map is written to the cluster.
  pub write_map : {A : Type 0} → W → (ConfigMap → A) → Attempt ConfigMap → W × Attempt A
  unfolding written
  write_map w f (gives cm) =
      let (w', err) = client.config_maps.update w cm in (w', written (f cm) err)
  write_map w f (errs e) = (w, errs e)
  write_map w f crashes = (w, crashes)

  update_planned :
      Codec → W → ConfigMap → Attempt (Planner × Change) → W × Attempt (Planner × Bool × ConfigMap)
  unfolding write_map set_container_config
  update_planned codec w cm (gives (pl, (false, state))) = (w, gives (pl, false, cm))
  update_planned codec w cm (gives (pl, (true, state))) =
      write_map w (λ cm'. (pl, true, cm')) (set_container_config codec cm state)
  update_planned codec w cm (errs e) = (w, errs e)
  update_planned codec w cm crashes = (w, crashes)

  unfoldable pub update_configuration :
      OperatorConfig
      → (String → Option String)
      → Codec
      → W
      → ConfigMap
      → SmbShare
      → W × Attempt (Planner × Bool × ConfigMap)
  unfolding update_planned plan_configuration
  update_configuration cfg group_of codec w cm s =
      update_planned codec w cm (plan_configuration client w cfg group_of codec cm s)

  prune_planned : Codec → W → ConfigMap → Attempt Change → W × Attempt (Bool × ConfigMap)
  unfolding write_map set_container_config
  prune_planned codec w cm (gives (false, state)) = (w, gives (false, cm))
  prune_planned codec w cm (gives (true, state)) =
      write_map w (λ cm'. (true, cm')) (set_container_config codec cm state)
  prune_planned codec w cm (errs e) = (w, errs e)
  prune_planned codec w cm crashes = (w, crashes)

  unfoldable pub prune_configuration :
      OperatorConfig → Codec → W → ConfigMap → SmbShare → W × Attempt (Bool × ConfigMap)
  unfolding prune_planned plan_prune
  prune_configuration cfg codec w cm s = prune_planned codec w cm (plan_prune cfg codec cm s)
