-- ===== src/Tests/Cluster.antt =====
-- The theorems on the reconciliation, in a cluster of one config map and one share.
mod Owners
mod Reconcile
use samba_operator.Base.{
  String, ◌≡◌, refl, sym, ap, subst, ◌∙◌, ◌≢◌, ◌↔◌, ◌⊎◌, ◌==◌, eq_iff, Bool-cases, ne_of_eq-false,
  Bool, true, false, Option, none, some, List, [], ◌∷◌, inl, inr,
}
use native.Mathlib.Decide.{ℕ_discrete}
use samba_operator.Base.Dict.{Dict}
use samba_operator.Base.Panics.{Run, returns, panics}
use samba_operator.Api.Meta.{ObjectMeta, OwnerReference, NamespacedName}
use samba_operator.Api.SmbShare.{SmbShare}
use samba_operator.Conf.{default_operator_config}
use samba_operator.Smbcc.{SambaContainerConfig, new}
use samba_operator.Planner.Instance.{Planner, InstanceConfiguration}
use samba_operator.Planner.Configuration.{Change, update, configure_share}
use samba_operator.Resources.Outcome.{Error, not_found, done, requeued}
use samba_operator.Resources.Kube.{
  Api, Client, Codec, CodecLaws, ConfigMap, Runtime, Reply, got, refused,
}
use samba_operator.Resources.Ownership.{share_group}
use samba_operator.Resources.Attempt.{Attempt, gives, crashes}
use samba_operator.Resources.Claims.{share_ref, claimed}
use samba_operator.Resources.Claims.Once.{claimed_converges}
use samba_operator.Resources.Transfer.{plan_transfer, hand_over, leave}
use samba_operator.Resources.Transfer.Converges.{plan_transfer_converges}
use samba_operator.Resources.Transfer.Sound.{NewOwner, plan_transfer_sound}
use samba_operator.Resources.ServerGroup.{assign, requested, plan_group}
use samba_operator.Resources.ServerGroup.Assigned.{Assigned, plan_group_assigns}
use samba_operator.Resources.Backend.{backend_of, wanted_backend, validate_backend, settle_backend}
use samba_operator.Resources.Backend.Recorded.{validate_backend_iff, settle_backend_converges}
use samba_operator.Resources.Manager.{update_config_map, finalize_config_map}
use samba_operator.Resources.Manager.Finalized.{Released, finalize_config_map_releases}
use samba_operator.Resources.Manager.Proceeds.{Proceeds, update_config_map-Proceeds}
use samba_operator.Planner.Compatible.{check_compatible}
use samba_operator.Planner.Compatible.Agrees.{
  Compatible, check_compatible_iff, check_compatible_sym,
}
use samba_operator.Base.Int.{pos}
use samba_operator.Resources.ConfigMaps.{
  admit, get_container_config, set_container_config, update_configuration,
}
use samba_operator.Resources.ConfigMaps.Stored.{
  plan_of, wrote_of_plan, update_configuration_converges, get_set_container_config,
}
use samba_operator.Resources.ConfigMaps.NilData.{update_configuration_nil}
use samba_operator.Tests.{
  files, metadata_of, after_files, update-files, files_custom-NodupKeys, files_common-NodupKeys,
  files-NoConflict,
}

String-discrete : Discrete String
String-discrete s t = elim (Bool-cases (s == t)) [
  | inl same ↦ yes ((eq_iff s t).0 same)
  | inr other ↦ no (ne_of_eq-false s t other)
]

SambaContainerConfig-discrete : Discrete SambaContainerConfig
SambaContainerConfig-discrete = hlevel (String-discrete, ℕ_discrete)

-- A codec that knows one configuration.
pick : (c d : SambaContainerConfig) → Dec (c ≡ d) → Option String
pick c d (yes e) = some "the configuration"
pick c d (no e) = none

codec : Codec
unfolding pick
codec = record {
  marshal = (λ c. pick c after_files.1 (SambaContainerConfig-discrete c after_files.1));
  unmarshal = (λ text. some after_files.1);
}

pick-some :
    (c d : SambaContainerConfig) (o : Dec (c ≡ d)) (text : String)
    → pick c d o ≡ some text
    → some d ≡ some c
unfolding pick
pick-some c d (yes e) text h = ap (λ x. some x) (sym e)
pick-some c d (no e) text h = cc

codec-CodecLaws : CodecLaws codec
unfolding codec
codec-CodecLaws = record {
  unmarshal-marshal = (λ c text h.
      pick-some c after_files.1 (SambaContainerConfig-discrete c after_files.1) text h);
}

pick-same : (c : SambaContainerConfig) (o : Dec (c ≡ c)) → pick c c o ≡ some "the configuration"
unfolding pick
pick-same c (yes e) = refl
pick-same c (no e) = absurd (e refl)

marshal-after : codec.marshal after_files.1 ≡ some "the configuration"
unfolding codec
marshal-after = pick-same after_files.1 (SambaContainerConfig-discrete after_files.1 after_files.1)

abbrev share : SmbShare
share = files.smb_share

abbrev client : Client ConfigMap
client = record {
  shares = record {
    get = (λ w name. refused not_found);
    create = (λ w s. (w, none));
    update = (λ w s. (w, none));
  };
  update_share_status = (λ w s. (w, none));
  security_configs = record {
    get = (λ w name. refused not_found);
    create = (λ w s. (w, none));
    update = (λ w s. (w, none));
  };
  common_configs = record {
    get = (λ w name. refused not_found);
    create = (λ w s. (w, none));
    update = (λ w s. (w, none));
  };
  config_maps = record {
    get = (λ w name. got w);
    create = (λ w cm. (cm, none));
    update = (λ w cm. (cm, none));
  };
}

abbrev group_of : String → Option String
group_of version = some share_group

abbrev map_of : Option (Dict String) → ConfigMap
map_of entries = record {
  metadata = record (metadata_of "g") { owner_references = share_ref share ∷ [] };
  entries = entries;
}

abbrev fresh_map : ConfigMap
fresh_map = map_of (some [])

abbrev full_map : ConfigMap
full_map = map_of (some (("config.json", "the configuration") ∷ []))

abbrev nil_map : ConfigMap
nil_map = map_of none

files_admitted :
    (w : ConfigMap)
    → admit client w default_operator_config group_of (share_ref share ∷ []) share ≡ gives files
unfolding admit
files_admitted w = refl

read_fresh : get_container_config codec fresh_map ≡ gives new
unfolding get_container_config
read_fresh = refl

put_full : set_container_config codec fresh_map after_files.1 ≡ gives full_map
unfolding set_container_config
put_full = rw marshal-after refl

files_changed : after_files.0 ≡ true
unfolding after_files
files_changed = refl

files_written :
    update_configuration client default_operator_config group_of codec fresh_map fresh_map share
    ≡ (full_map, gives (files, true, full_map))
files_written =
    wrote_of_plan client default_operator_config group_of codec fresh_map full_map fresh_map
      full_map share files after_files.1
      (plan_of client default_operator_config group_of codec fresh_map fresh_map share files new
        (true, after_files.1) read_fresh (files_admitted fresh_map)
        (update-files ∙ ap (λ (b : Bool). returns (b, after_files.1)) files_changed))
      put_full refl

update_configuration_converges_example :
    update_configuration client default_operator_config group_of codec full_map full_map share
    ≡ (full_map, gives (files, false, full_map))
update_configuration_converges_example =
    update_configuration_converges client default_operator_config group_of codec fresh_map full_map
      full_map fresh_map full_map share files codec-CodecLaws files_custom-NodupKeys
      files_common-NodupKeys files-NoConflict files_written (files_admitted full_map)

update_configuration_nil_example :
    (update_configuration client default_operator_config group_of codec nil_map nil_map share).1
    ≡ crashes
update_configuration_nil_example =
    update_configuration_nil client default_operator_config group_of codec nil_map nil_map share
      files after_files "the configuration" refl (files_admitted nil_map) update-files marshal-after

abbrev runtime : Runtime
runtime = record {
  group_of = group_of;
  contains_finalizer = (λ s f. false);
  add_finalizer = (λ s f. s);
  remove_finalizer = (λ s f. s);
  set_controller_reference = (λ s m. some m);
}

files_proceed :
    update_config_map client runtime default_operator_config codec full_map share
    ≡ (full_map, returns (some files, done))
unfolding update_config_map codec after_files configure_share
files_proceed = refl

update_config_map-Proceeds_example :
    (full_map ≡ full_map)
    × (done ≡ done)
    × Proceeds client runtime default_operator_config codec full_map share files
update_config_map-Proceeds_example =
    update_config_map-Proceeds client runtime default_operator_config codec full_map full_map share
      files done files_proceed

get_set_container_config_example :
    (get_container_config codec full_map ≡ gives after_files.1)
    × (full_map.metadata ≡ fresh_map.metadata)
get_set_container_config_example =
    get_set_container_config codec codec-CodecLaws fresh_map full_map after_files.1 put_full

-- The share is being deleted, and the config map does not hold it.
abbrev going : SmbShare
going = record share { metadata = record share.metadata { deletion_timestamp = some "2024-01-01" } }

going_finalized :
    finalize_config_map client runtime default_operator_config codec fresh_map going
    ≡ (fresh_map, returns done)
unfolding finalize_config_map
going_finalized = refl

finalize_config_map_releases_example :
    Released client runtime default_operator_config codec going (got fresh_map)
finalize_config_map_releases_example =
    finalize_config_map_releases client runtime default_operator_config codec fresh_map fresh_map
      going done going_finalized refl
