-- ===== src/Tests/Cluster/Owners.antt =====
-- The theorems on owners, groups, backends and compatibility at concrete objects.
use samba_operator.Base.{String, ◌≡◌, refl, ◌↔◌, ◌≢◌, true, false, none, some, List, [], ◌∷◌}
use samba_operator.Base.Panics.{returns}
use samba_operator.Api.Meta.{ObjectMeta, OwnerReference, NamespacedName}
use samba_operator.Api.SmbShare.{SmbShare}
use samba_operator.Conf.{OperatorConfig, default_operator_config, validate}
use samba_operator.Conf.Validated.{validate_iff}
use samba_operator.Base.Int.{le_zero}
use samba_operator.Planner.Instance.{Planner, InstanceConfiguration}
use samba_operator.Resources.Outcome.{not_found, done, requeued}
use samba_operator.Resources.Kube.{Reply, got, refused}
use samba_operator.Resources.Claims.{share_ref, claimed}
use samba_operator.Resources.Claims.Once.{claimed_converges}
use samba_operator.Resources.Transfer.{plan_transfer, hand_over, leave}
use samba_operator.Resources.Transfer.Converges.{plan_transfer_converges}
use samba_operator.Resources.Transfer.Sound.{NewOwner, plan_transfer_sound}
use samba_operator.Resources.ServerGroup.{assign, requested, plan_group}
use samba_operator.Resources.ServerGroup.Assigned.{Assigned, plan_group_assigns}
use samba_operator.Resources.Backend.{backend_of, wanted_backend, validate_backend, settle_backend}
use samba_operator.Resources.Backend.Recorded.{validate_backend_iff, settle_backend_converges}
use samba_operator.Planner.Compatible.{check_compatible}
use samba_operator.Planner.Compatible.Agrees.{
  Compatible, check_compatible_iff, check_compatible_sym,
}
use samba_operator.Base.Int.{pos}
use samba_operator.Tests.{files, metadata_of}
use samba_operator.Tests.Cluster.{share, client, group_of, fresh_map, full_map}

-- An object of two shares, the second of which takes over.
abbrev heir_ref : OwnerReference
heir_ref = record (share_ref share) { name = "heir"; uid = "uid-of-the-heir" }

abbrev shared : ObjectMeta
shared = record (metadata_of "g") {
  owner_references = record (share_ref share) { controller = some true } ∷ heir_ref ∷ [];
}

abbrev heir : NamespacedName → Reply SmbShare
heir name = got (record share { metadata = metadata_of "heir" })

abbrev handed : List OwnerReference
handed =
    share_ref share
    ∷ record heir_ref { controller = some true; block_owner_deletion = some true }
    ∷ []

files_handed_over : plan_transfer group_of heir shared share ≡ hand_over handed
unfolding plan_transfer
files_handed_over = refl

plan_transfer_sound_example : NewOwner group_of heir shared share handed
plan_transfer_sound_example =
    plan_transfer_sound group_of heir shared share handed files_handed_over

plan_transfer_converges_example :
    plan_transfer group_of
      (λ name. refused not_found)
      (record shared { owner_references = handed })
      share
    ≡ leave
plan_transfer_converges_example =
    plan_transfer_converges group_of heir (λ name. refused not_found) shared share handed
      files_handed_over

share_claims :
    claimed group_of share (heir_ref ∷ []) ≡ some (some (heir_ref ∷ share_ref share ∷ []))
unfolding claimed
share_claims = refl

claimed_converges_example :
    (heir_ref ∷ share_ref share ∷ [] ≡ heir_ref ∷ share_ref share ∷ [])
    × (claimed group_of share (heir_ref ∷ share_ref share ∷ []) ≡ some none)
claimed_converges_example =
    claimed_converges group_of share (heir_ref ∷ []) (heir_ref ∷ share_ref share ∷ []) refl
      share_claims

abbrev grouped : SmbShare
grouped = record share {
  spec = record share.spec {
    scaling = some (record {
      availability_mode = "standard";
      min_cluster_size = pos 1;
      group = "team";
      group_mode = "explicit";
    });
  };
  status = record { server_group = "" };
}

plan_group_assigns_example :
    (plan_group grouped ≡ assign "team") ↔ Assigned grouped.metadata.name (requested grouped) "team"
plan_group_assigns_example = plan_group_assigns grouped "team" refl

validate_backend_iff_example :
    (validate_backend files ≡ done) ↔ (backend_of files.smb_share ≡ wanted_backend files)
validate_backend_iff_example = validate_backend_iff files

abbrev recorded : Planner
recorded = record files {
  smb_share = record share {
    metadata = record share.metadata {
      annotations = ("samba-operator.samba.org/serverBackend", "standard:deployment") ∷ [];
    };
  };
}

files-recorded : settle_backend client fresh_map files ≡ (fresh_map, recorded, requeued)
unfolding settle_backend
files-recorded = refl

settle_backend_converges_example :
    settle_backend client full_map recorded ≡ (full_map, recorded, done)
settle_backend_converges_example =
    settle_backend_converges client fresh_map fresh_map full_map files recorded files-recorded

abbrev instance_of : String → InstanceConfiguration
instance_of name = record {
  smb_share = some (record share { metadata = metadata_of name });
  security_config = none;
  common_config = none;
  global_config = default_operator_config;
}

two_agree : check_compatible (instance_of "a") (instance_of "b") ≡ returns none
unfolding check_compatible
two_agree = refl

check_compatible_iff_example :
    (check_compatible (instance_of "a") (instance_of "b") ≡ returns none)
    ↔ Compatible (instance_of "a") (instance_of "b")
check_compatible_iff_example = check_compatible_iff (instance_of "a") (instance_of "b")

check_compatible_sym_example : check_compatible (instance_of "b") (instance_of "a") ≡ returns none
check_compatible_sym_example = check_compatible_sym (instance_of "a") (instance_of "b") two_agree

abbrev settings : OperatorConfig
settings = record default_operator_config { working_namespace = "samba" }

validate_iff_example : (validate settings ≡ none) ↔ (
    (settings.working_namespace ≢ "")
    × (le_zero settings.smb_service_port ≡ false)
    × (le_zero settings.smbd_port ≡ false))
validate_iff_example = validate_iff settings
