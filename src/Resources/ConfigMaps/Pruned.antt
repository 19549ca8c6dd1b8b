-- ===== src/Resources/ConfigMaps/Pruned.antt =====
-- What holds of the configuration of a config map that `pruneConfiguration` leaves as it is.
use samba_operator.Base.{◌≡◌, refl, sym, ◌∙◌, true, false, Option, none, some, arith, is_some}
use samba_operator.Base.Dict.{lookup}
use samba_operator.Api.SmbShare.{SmbShare}
use samba_operator.Conf.{OperatorConfig}
use samba_operator.Smbcc.{SambaContainerConfig}
use samba_operator.Planner.Configuration.{Change, prune, share_name, instance_id}
use samba_operator.Planner.Configuration.Prune.{lists, prune_flag}
use samba_operator.Resources.Kube.{Client, Codec, ConfigMap, Runtime}
use samba_operator.Resources.Attempt.{Attempt, gives, errs, crashes, >>=-eq-gives}
use samba_operator.Resources.ConfigMaps.{
  get_container_config, minimal_planner, plan_prune, prune_configuration, prune_planned,
  set_container_config, deleted_only,
}
use samba_operator.Resources.ConfigMaps.Stored.{write_map-gives}

-- The configuration that is stored says nothing of the share.
pub record Forgotten (cfg : OperatorConfig) (codec : Codec) (cm : ConfigMap) (s : SmbShare)
    : Type 0 where
  pub state : SambaContainerConfig
  pub decoded : get_container_config codec cm ≡ gives state
  pub no_section : lookup (share_name (minimal_planner cfg s)) state.shares ≡ none
  pub not_listed :
      lists
        (share_name (minimal_planner cfg s))
        (lookup (instance_id (minimal_planner cfg s)) state.configs)
      ≡ false

is_some-false : {A : Type 0} (o : Option A) → is_some o ≡ false → o ≡ none
is_some-false none h = refl
is_some-false (some a) h = cc

module _ {W : Type 0} (client : Client W) (runtime : Runtime) (cfg : OperatorConfig)
    (codec : Codec) where
  Forgotten-of_plan :
      (cm : ConfigMap) (s : SmbShare) (state : SambaContainerConfig)
      → plan_prune cfg codec cm s ≡ gives (false, state)
      → Forgotten cfg codec cm s
  unfolding plan_prune
  Forgotten-of_plan cm s state h =
      let pl = minimal_planner cfg s in
      let (before, decoded, rest) = >>=-eq-gives (get_container_config codec cm) _ h in
      let (u, deleted, rest') = >>=-eq-gives (deleted_only s) _ rest in
      let down : (prune pl before).0 ≡ false = cc rest' in
      let nothing = sym (prune_flag pl before) ∙ down in
      record {
        state = before;
        decoded = decoded;
        no_section = is_some-false (lookup (share_name pl) before.shares) (ground (arith, nothing));
        not_listed = ground (arith, nothing);
      }

  unchanged_plan :
      (w w' : W) (cm cm' : ConfigMap) (p : Attempt Change)
      → prune_planned client codec w cm p ≡ (w', gives (false, cm'))
      → (state : SambaContainerConfig) × (p ≡ gives (false, state))
  unfolding prune_planned
  unchanged_plan w w' cm cm' (errs e) h = cc
  unchanged_plan w w' cm cm' crashes h = cc
  unchanged_plan w w' cm cm' (gives (false, state)) h = (state, refl)
  unchanged_plan w w' cm cm' (gives (true, state)) h =
      let (cm₁, put, same) =
        write_map-gives client cfg runtime.group_of codec w w' (λ cm'. (true, cm'))
          (set_container_config codec cm state) (false, cm') h in
      cc same

  -- A call that reports no change found nothing of the share in the configuration.
  pub prune_configuration_unchanged :
      (w w' : W) (cm cm' : ConfigMap) (s : SmbShare)
      → prune_configuration client cfg codec w cm s ≡ (w', gives (false, cm'))
      → Forgotten cfg codec cm s
  unfolding prune_configuration
  prune_configuration_unchanged w w' cm cm' s h =
      let (state, plan) = unchanged_plan w w' cm cm' (plan_prune cfg codec cm s) h in
      Forgotten-of_plan cm s state plan

  planned_quiet :
      (w w' : W) (cm cm' : ConfigMap) (p : Attempt Change)
      → prune_planned client codec w cm p ≡ (w', gives (false, cm'))
      → w' ≡ w
  unfolding prune_planned
  planned_quiet w w' cm cm' (errs e) h = cc
  planned_quiet w w' cm cm' crashes h = cc
  planned_quiet w w' cm cm' (gives (false, state)) h = cc
  planned_quiet w w' cm cm' (gives (true, state)) h =
      absurd (cc (unchanged_plan w w' cm cm' (gives (true, state)) h).1)

  -- A call that reports no change wrote nothing.
  pub prune_configuration_quiet :
      (w w' : W) (cm cm' : ConfigMap) (s : SmbShare)
      → prune_configuration client cfg codec w cm s ≡ (w', gives (false, cm'))
      → w' ≡ w
  unfolding prune_configuration
  prune_configuration_quiet w w' cm cm' s h =
      planned_quiet w w' cm cm' (plan_prune cfg codec cm s) h
