-- ===== src/Resources/Servers.antt =====
-- internal/resources/smbshare.go: the steps that keep the objects of a share's server.
pub mod Reads
pub mod Running
pub mod Kept
pub mod Writes
use samba_operator.Base.{String, ◌<>◌, Bool, true, false, Option, none, some, List, if◌then◌else◌}
use samba_operator.Base.Int.{ℤ, int32}
use samba_operator.Base.Panics.{Run, returns, panics}
use samba_operator.Api.Meta.{OwnerReference}
use samba_operator.Api.SmbShare.{SmbShare}
use samba_operator.Conf.{OperatorConfig}
use samba_operator.Planner.Instance.{Planner}
use samba_operator.Planner.Properties.{is_clustered}
use samba_operator.Planner.Misc.{may_cluster}
use samba_operator.Resources.Outcome.{failed, stopped}
use samba_operator.Resources.Objects.{Workload, Service}
use samba_operator.Resources.Claims.{claim_ownership}
use samba_operator.Resources.Sizes.{update_stateful_set_size, update_deployment_size}
use samba_operator.Resources.Platform.{Platform}
use samba_operator.Resources.Step.{
  Step, pass, crash, go, stop, change, attempt, after_attempt, ◌>>=◌, ◌>>◌,
}
use samba_operator.Resources.Getters.{
  get_or_create_pvc, get_or_create_state_pvc, get_or_create_stateful_set, get_or_create_deployment,
  get_or_create_service,
}
use samba_operator.Resources.Monitoring.{
  get_or_create_metrics_service, get_or_create_metrics_service_monitor,
}

abbrev pub workload_owners : Workload → List OwnerReference
workload_owners obj = obj.metadata.owner_references

abbrev pub set_workload_owners : Workload → List OwnerReference → Workload
set_workload_owners obj refs = record obj {
  metadata = record obj.metadata { owner_references = refs };
}

abbrev pub service_owners : Service → List OwnerReference
service_owners obj = obj.metadata.owner_references

abbrev pub set_service_owners : Service → List OwnerReference → Service
set_service_owners obj refs = record obj {
  metadata = record obj.metadata { owner_references = refs };
}

-- The name of the claim, put into the share in memory.
unfoldable pub with_pvc_name : SmbShare → String → SmbShare
with_pvc_name s name = record s {
  spec = record s.spec {
    storage = record {
      pvc = elim s.spec.storage.pvc [ none ↦ none | some pvc ↦ some (record pvc { name = name }) ];
    };
  };
}

-- `int32(Scaling.MinClusterSize)`, read through a pointer.
unfoldable pub wanted_size : Planner → Run ℤ
unfolding int32
wanted_size pl = elim pl.smb_share.spec.scaling [
  | none ↦ panics
  | some scaling ↦ returns (int32 scaling.min_cluster_size)
]

module _ {W : Type 0} (p : Platform W) where
  unfoldable pub update_pvc : SmbShare → Step W SmbShare
  unfolding get_or_create_pvc with_pvc_name
  update_pvc s = do
    pvc ← attempt (λ w. get_or_create_pvc p w s s.metadata.namespace)
    pass (with_pvc_name s pvc.metadata.name)

  sized_to : Workload → Run ℤ → Step W Workload
  unfolding update_stateful_set_size after_attempt
  sized_to obj panics w cfg = crash w cfg
  sized_to obj (returns size) w cfg =
      after_attempt cfg (update_stateful_set_size p.stateful_sets.update w obj size)

  unfoldable pub clustered_steps : Planner → Step W Unit
  unfolding get_or_create_state_pvc get_or_create_stateful_set claim_ownership sized_to wanted_size
  clustered_steps pl = do
    let s = pl.smb_share
    let ns = s.metadata.namespace
    state ← attempt (λ w. get_or_create_state_pvc p w pl ns)
    found ← attempt (λ w. get_or_create_stateful_set p w pl ns)
    owned ← change (λ w.
        claim_ownership p.stateful_sets.update workload_owners set_workload_owners
          p.runtime.group_of w s found)
    sized ← sized_to owned (wanted_size pl)
    pass tt

  unfoldable pub update_clustered_state : Planner → Step W Unit
  unfolding clustered_steps may_cluster
  update_clustered_state pl w cfg =
      if may_cluster pl
      then clustered_steps pl w cfg
      else stop w cfg (
          stopped (
            failed (
              "CTDB clustering not enabled in ClusterSupport: "
              <> pl.global_config.cluster_support)))

  unfoldable pub update_non_clustered_state : Planner → Step W Unit
  unfolding get_or_create_deployment claim_ownership update_deployment_size after_attempt
  update_non_clustered_state pl = do
    let s = pl.smb_share
    found ← (λ w cfg. after_attempt cfg (get_or_create_deployment p w cfg pl s.metadata.namespace))
    owned ← change (λ w.
        claim_ownership p.deployments.update workload_owners set_workload_owners p.runtime.group_of
          w s found)
    sized ← attempt (λ w. update_deployment_size p.deployments.update w owned)
    pass tt

  unfoldable pub update_smb_service : Planner → Step W Unit
  unfolding get_or_create_service claim_ownership
  update_smb_service pl = do
    let s = pl.smb_share
    found ← attempt (λ w. get_or_create_service p w pl s.metadata.namespace)
    owned ← change (λ w.
        claim_ownership p.services.update service_owners set_service_owners p.runtime.group_of w s
          found)
    pass tt

  unfoldable pub update_metrics_service : Planner → Step W Unit
  unfolding get_or_create_metrics_service after_attempt
  update_metrics_service pl = do
    found ← (λ w cfg.
        after_attempt cfg
          (get_or_create_metrics_service p w cfg pl pl.smb_share.metadata.namespace))
    pass tt

  unfoldable pub update_metrics_service_monitor : Planner → Step W Unit
  unfolding get_or_create_metrics_service_monitor after_attempt
  update_metrics_service_monitor pl = do
    found ← (λ w cfg.
        after_attempt cfg
          (get_or_create_metrics_service_monitor p w cfg pl pl.smb_share.metadata.namespace))
    pass tt
