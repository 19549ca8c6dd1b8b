-- ===== src/Resources/Reconcile.antt =====
-- internal/resources/smbshare.go: `Process`, `Update` and `Finalize`, which the controller calls, out
-- of their steps. A share is passed along as it is in memory: the planner of the source points to
-- it, so that the planner here is given the share of the step before. Logging and events are left
-- out.
pub mod Steps
pub mod InPlace
pub mod Kept
pub mod Released
pub mod Cleared
pub mod Processed
pub mod Writes
pub mod Running
pub mod StepWrites
pub mod ReleaseWrites
pub mod HandedOver
use samba_operator.Base.{
  String, Bool, true, false, Option, none, some, List, if◌then◌else◌, is_some, ◌==◌,
}
use samba_operator.Base.Panics.{Run, returns, panics}
use samba_operator.Api.Meta.{ObjectMeta, OwnerReference, NamespacedName}
use samba_operator.Api.SmbShare.{SmbShare}
use samba_operator.Conf.{OperatorConfig}
use samba_operator.Planner.Instance.{Planner}
use samba_operator.Planner.Properties.{is_clustered}
use samba_operator.Resources.Outcome.{
  Error, not_found, failed, Result, done, requeued, stopped, yields,
}
use samba_operator.Resources.Kube.{Api, Reply, got, refused}
use samba_operator.Resources.Attempt.{Attempt, gives, errs, crashes}
use samba_operator.Resources.Objects.{PersistentVolumeClaim}
use samba_operator.Resources.Claims.{add_finalizer, share_finalizer}
use samba_operator.Resources.ServerGroup.{set_server_group}
use samba_operator.Resources.Backend.{settle_backend}
use samba_operator.Resources.Sizes.{share_needs_pvc, pvc_name, shared_state_pvc_name}
use samba_operator.Resources.ConfigMaps.{minimal_planner}
use samba_operator.Resources.Manager.{update_config_map, finalize_config_map, transfer_ownership}
use samba_operator.Resources.OpenShift.{finalize_for_openshift}
use samba_operator.Resources.Platform.{Platform, grants_of}
use samba_operator.Resources.Step.{
  Outcome, Step, pass, go, stop, crash, change, unless_yields, finished, ◌>>=◌, ◌>>◌,
}
use samba_operator.Resources.Getters.{
  get_existing_deployment, get_existing_stateful_set, get_existing_pvc,
}
use samba_operator.Resources.Grants.{update_for_openshift, cluster_typed}
use samba_operator.Resources.Servers.{
  update_pvc, update_clustered_state, update_non_clustered_state, update_smb_service,
  update_metrics_service, update_metrics_service_monitor, workload_owners, set_workload_owners,
}

abbrev pub set_pvc_owners : PersistentVolumeClaim → List OwnerReference → PersistentVolumeClaim
set_pvc_owners obj refs = record obj { metadata = record obj.metadata { owner_references = refs } }

module _ {W : Type 0} where
  -- A result without a planner goes with a yield; a nil planner would be dereferenced.
  unfoldable pub with_planner :
      OperatorConfig → W × Run (Option Planner × Result) → Outcome W Planner
  unfolding unless_yields
  with_planner cfg (w, panics) = crash w cfg
  with_planner cfg (w, returns (none, r)) = unless_yields w cfg r (crash w cfg)
  with_planner cfg (w, returns (some pl, r)) = unless_yields w cfg r (go w cfg pl)

  unfoldable pub with_backend : OperatorConfig → W × Planner × Result → Outcome W Planner
  unfolding unless_yields
  with_backend cfg (w, pl, r) = unless_yields w cfg r (go w cfg pl)

  unfoldable pub with_result : OperatorConfig → W × Result → Outcome W Unit
  unfolding unless_yields
  with_result cfg (w, r) = unless_yields w cfg r (go w cfg tt)

  unfoldable pub with_run : OperatorConfig → W × Run Result → Outcome W Unit
  unfolding unless_yields
  with_run cfg (w, panics) = crash w cfg
  with_run cfg (w, returns r) = unless_yields w cfg r (go w cfg tt)

  -- A read that answers nil or an object.
  unfoldable pub with_read :
      {A : Type 0} → Attempt (Option A) → (Option A → Step W Unit) → Step W Unit
  with_read (gives o) f w cfg = f o w cfg
  with_read (errs e) f w cfg = stop w cfg (stopped e)
  with_read crashes f w cfg = crash w cfg

  unfoldable pub after_write : OperatorConfig → W × Option Error → Outcome W Unit
  after_write cfg (w, none) = go w cfg tt
  after_write cfg (w, some e) = stop w cfg (stopped e)

module _ {W : Type 0} (p : Platform W) where
  module _ {A : Type 0} (api : Api W A) (meta : A → ObjectMeta)
      (set_owners : A → List OwnerReference → A) where
    -- `if found != nil { transferOwnership }`
    unfoldable pub hand_over_found : SmbShare → Option A → Step W Unit
    unfolding with_result transfer_ownership
    hand_over_found s none w cfg = go w cfg tt
    hand_over_found s (some obj) w cfg =
        with_result cfg
          (transfer_ownership p.client p.runtime cfg p.codec api.update meta set_owners w obj s)

  unfoldable pub hand_over_pvc : SmbShare → String → Step W Unit
  unfolding with_read get_existing_pvc hand_over_found
  hand_over_pvc s name w cfg =
      with_read (get_existing_pvc p w name s.metadata.namespace)
        (hand_over_found p.pvcs (λ d. d.metadata) set_pvc_owners s) w cfg

  unfoldable pub hand_over_stateful_set : SmbShare → Step W Unit
  unfolding with_read get_existing_stateful_set hand_over_found
  hand_over_stateful_set s w cfg =
      with_read (get_existing_stateful_set p w (minimal_planner cfg s) s.metadata.namespace)
        (hand_over_found p.stateful_sets (λ d. d.metadata) set_workload_owners s) w cfg

  unfoldable pub hand_over_deployment : SmbShare → Step W Unit
  unfolding with_read get_existing_deployment hand_over_found
  hand_over_deployment s w cfg =
      with_read (get_existing_deployment p w (minimal_planner cfg s) s.metadata.namespace)
        (hand_over_found p.deployments (λ d. d.metadata) set_workload_owners s) w cfg

  hand_over_clustered : SmbShare → Step W Unit
  unfolding hand_over_stateful_set hand_over_pvc shared_state_pvc_name
  hand_over_clustered s w cfg =
      (hand_over_stateful_set s >> hand_over_pvc s (shared_state_pvc_name (minimal_planner cfg s)))
        w cfg

  unfoldable pub finalize_server_resources : SmbShare → Step W Unit
  unfolding hand_over_clustered hand_over_deployment is_clustered
  finalize_server_resources s w cfg =
      if is_clustered (minimal_planner cfg s)
      then hand_over_clustered s w cfg
      else hand_over_deployment s w cfg

  named_pvc : SmbShare → Run String → Step W Unit
  unfolding hand_over_pvc
  named_pvc s panics w cfg = crash w cfg
  named_pvc s (returns name) w cfg = hand_over_pvc s name w cfg

  unfoldable pub finalize_data_pvc : SmbShare → Step W Unit
  unfolding named_pvc pvc_name
  finalize_data_pvc s = named_pvc s (pvc_name s)

  unfoldable pub openshift_finalized : SmbShare → Step W Unit
  unfolding with_result finalize_for_openshift grants_of cluster_typed
  openshift_finalized s w cfg =
      let cfg' = cluster_typed p w cfg in
      with_result cfg' (finalize_for_openshift (grants_of p) w cfg' s)

  unfoldable pub drop_finalizer : SmbShare → Step W Unit
  unfolding after_write
  drop_finalizer s w cfg =
      after_write cfg (p.client.shares.update w (p.runtime.remove_finalizer s share_finalizer))

  -- What is done before the finalizer is taken off.
  unfoldable pub released : SmbShare → Step W Unit
  unfolding finalize_config_map with_run finalize_server_resources openshift_finalized
      finalize_data_pvc share_needs_pvc
  released s = do
    (λ w cfg. with_run cfg (finalize_config_map p.client p.runtime cfg p.codec w s))
    finalize_server_resources s
    openshift_finalized s
    (if share_needs_pvc s then finalize_data_pvc s else pass tt)

  unfoldable pub finalize : SmbShare → Step W Unit
  unfolding released drop_finalizer
  finalize s = released s >> drop_finalizer s

  unfoldable pub server_steps : Planner → Step W Unit
  unfolding update_clustered_state update_non_clustered_state update_smb_service
      update_metrics_service update_metrics_service_monitor is_clustered
  server_steps pl = do
    (if is_clustered pl then update_clustered_state p pl else update_non_clustered_state p pl)
    update_smb_service p pl
    update_metrics_service p pl
    update_metrics_service_monitor p pl

  -- What follows the config map in `Update`.
  unfoldable pub backed_steps : SmbShare → Planner → Step W Unit
  unfolding update_pvc share_needs_pvc settle_backend with_backend server_steps
  backed_steps s planner = do
    stored ← (if share_needs_pvc s then update_pvc p s else pass s)
    backed ← (λ w cfg.
        with_backend cfg (settle_backend p.client w (record planner { smb_share = stored })))
    server_steps backed

  unfoldable pub update_share : SmbShare → Step W Unit
  unfolding add_finalizer update_for_openshift set_server_group update_config_map with_planner
      backed_steps
  update_share s = do
    kept ← change (λ w. add_finalizer p.runtime p.client w s)
    typed ← update_for_openshift p kept
    grouped ← change (λ w. set_server_group p.client w typed)
    planner ←
        (λ w cfg. with_planner cfg (update_config_map p.client p.runtime cfg p.codec w grouped))
    backed_steps grouped planner

  -- A share that is being deleted, with our finalizer or without it, and one that is alive.
  process_found : SmbShare → Bool → Bool → Step W Unit
  unfolding finalize update_share
  process_found s true true = finalize s
  process_found s true false = pass tt
  process_found s false held = update_share s

  process_reply : W → OperatorConfig → Reply SmbShare → W × OperatorConfig × Run Result
  unfolding process_found
  process_reply w cfg (refused not_found) = (w, cfg, returns done)
  process_reply w cfg (refused (failed e)) = (w, cfg, returns (stopped (failed e)))
  process_reply w cfg (got s) = finished (
      process_found s (is_some s.metadata.deletion_timestamp)
        (p.runtime.contains_finalizer s share_finalizer) w cfg)

  unfoldable pub process : W → OperatorConfig → NamespacedName → W × OperatorConfig × Run Result
  unfolding process_reply
  process w cfg name = process_reply w cfg (p.client.shares.get w name)
