-- ===== src/Resources/Reconcile/ReleaseWrites.antt =====
-- internal/resources/smbshare.go: `Finalize` writes at most once.
use samba_operator.Base.{
  String, refl, inl, Bool, true, false, Option, none, some, List, if◌then◌else◌,
}
use samba_operator.Base.Panics.{Run, returns, panics}
use samba_operator.Api.Meta.{ObjectMeta, OwnerReference}
use samba_operator.Api.SmbShare.{SmbShare}
use samba_operator.Conf.{OperatorConfig}
use samba_operator.Planner.Properties.{is_clustered}
use samba_operator.Resources.Kube.{Api}
use samba_operator.Resources.Sizes.{share_needs_pvc, pvc_name, shared_state_pvc_name}
use samba_operator.Resources.ConfigMaps.{minimal_planner}
use samba_operator.Resources.Transfer.{plan_transfer}
use samba_operator.Resources.Transfer.Writes.{run_plan-Resulting}
use samba_operator.Resources.Manager.{finalize_config_map, transfer_ownership}
use samba_operator.Resources.Manager.Writes.{finalize_config_map-Settles}
use samba_operator.Resources.OpenShift.{grant_key}
use samba_operator.Resources.OpenShift.Writes.{finalize_for_openshift-Resulting}
use samba_operator.Resources.Platform.{Platform, grants_of}
use samba_operator.Resources.Step.{pass}
use samba_operator.Resources.Getters.{
  get_existing_deployment, get_existing_stateful_set, get_existing_pvc,
}
use samba_operator.Resources.Grants.{cluster_typed}
use samba_operator.Resources.Servers.{set_workload_owners}
use samba_operator.Resources.Once.{Once, Ends, Once-next, Ends-next, either-Once}
use samba_operator.Resources.Written.{
  Written, share_updated, map_created, map_updated, deployment_updated, stateful_set_updated,
  pvc_updated, grant_deleted,
}
use samba_operator.Resources.Reconcile.{
  hand_over_found, hand_over_pvc, hand_over_stateful_set, hand_over_deployment, hand_over_clustered,
  finalize_server_resources, named_pvc, finalize_data_pvc, openshift_finalized, drop_finalizer,
  released, finalize, set_pvc_owners,
}
use samba_operator.Resources.Reconcile.StepWrites.{
  with_result-Once, with_run-Once, with_read-Once, after_write-Ends,
}

module _ {W : Type 0} (p : Platform W) (w : W) where
  hand_over_found-Once :
      {A : Type 0} (api : Api W A) (meta : A → ObjectMeta)
      (set_owners : A → List OwnerReference → A) (s : SmbShare) (cfg : OperatorConfig)
      (found : Option A)
      → ((obj : A) → Written p w (api.update w obj).0)
      → Once (Written p) w (hand_over_found p api meta set_owners s found w cfg)
  unfolding hand_over_found transfer_ownership
  hand_over_found-Once api meta set_owners s cfg none updates = refl
  hand_over_found-Once api meta set_owners s cfg (some obj) updates =
      with_result-Once (Written p) w cfg _ (
        run_plan-Resulting (Written p) w api.update set_owners obj
          (plan_transfer p.runtime.group_of (p.client.shares.get w) (meta obj) s) updates)

  module _ (s : SmbShare) where
    hand_over_pvc-Once :
        (name : String) (cfg : OperatorConfig) → Once (Written p) w (hand_over_pvc p s name w cfg)
    unfolding hand_over_pvc
    hand_over_pvc-Once name cfg =
        with_read-Once (Written p) w cfg (get_existing_pvc p w name s.metadata.namespace) _
          (λ found.
            hand_over_found-Once p.pvcs (λ d. d.metadata) set_pvc_owners s cfg found
              (λ c. pvc_updated w c))

    hand_over_stateful_set-Once :
        (cfg : OperatorConfig) → Once (Written p) w (hand_over_stateful_set p s w cfg)
    unfolding hand_over_stateful_set
    hand_over_stateful_set-Once cfg =
        with_read-Once (Written p) w cfg
          (get_existing_stateful_set p w (minimal_planner cfg s) s.metadata.namespace) _
          (λ found.
            hand_over_found-Once p.stateful_sets (λ d. d.metadata) set_workload_owners s cfg found
              (λ d. stateful_set_updated w d))

    hand_over_deployment-Once :
        (cfg : OperatorConfig) → Once (Written p) w (hand_over_deployment p s w cfg)
    unfolding hand_over_deployment
    hand_over_deployment-Once cfg =
        with_read-Once (Written p) w cfg
          (get_existing_deployment p w (minimal_planner cfg s) s.metadata.namespace) _
          (λ found.
            hand_over_found-Once p.deployments (λ d. d.metadata) set_workload_owners s cfg found
              (λ d. deployment_updated w d))

    finalize_server_resources-Once :
        (cfg : OperatorConfig) → Once (Written p) w (finalize_server_resources p s w cfg)
    unfolding finalize_server_resources hand_over_clustered
    finalize_server_resources-Once cfg =
        either-Once (Written p) w (is_clustered (minimal_planner cfg s)) _ _
          (Once-next (Written p) w (hand_over_stateful_set p s w cfg) _
            (hand_over_stateful_set-Once cfg)
            (λ cfg' handed.
              hand_over_pvc-Once (shared_state_pvc_name (minimal_planner cfg s)) cfg'))
          (hand_over_deployment-Once cfg)

    named_pvc-Once :
        (name : Run String) (cfg : OperatorConfig) → Once (Written p) w (named_pvc p s name w cfg)
    unfolding named_pvc
    named_pvc-Once panics cfg = inl refl
    named_pvc-Once (returns name) cfg = hand_over_pvc-Once name cfg

    openshift_finalized-Once :
        (cfg : OperatorConfig) → Once (Written p) w (openshift_finalized p s w cfg)
    unfolding openshift_finalized grants_of
    openshift_finalized-Once cfg = with_result-Once (Written p) w (cluster_typed p w cfg) _ (
        finalize_for_openshift-Resulting (Written p) (grants_of p) w
          (λ g s. grant_deleted w g (grant_key s g)) (cluster_typed p w cfg) s)

    claim_either-Once :
        (b : Bool) (cfg : OperatorConfig)
        → Once (Written p) w ((if b then finalize_data_pvc p s else pass tt) w cfg)
    unfolding finalize_data_pvc
    claim_either-Once true cfg = named_pvc-Once (pvc_name s) cfg
    claim_either-Once false cfg = refl

    released-Once : (cfg : OperatorConfig) → Once (Written p) w (released p s w cfg)
    unfolding released
    released-Once cfg =
        Once-next (Written p) w _ _
          (with_run-Once (Written p) w cfg (finalize_config_map p.client p.runtime cfg p.codec w s)
            (finalize_config_map-Settles (Written p) p.client p.runtime cfg p.codec w
              (λ cm. map_created w cm) (λ cm. map_updated w cm) s))
          (λ cfg a.
            Once-next (Written p) w (finalize_server_resources p s w cfg) _
              (finalize_server_resources-Once cfg)
              (λ cfg b.
                Once-next (Written p) w (openshift_finalized p s w cfg) _
                  (openshift_finalized-Once cfg)
                  (λ cfg c. claim_either-Once (share_needs_pvc s) cfg)))

    pub finalize-Ends : (cfg : OperatorConfig) → Ends (Written p) w (finalize p s w cfg)
    unfolding finalize drop_finalizer
    finalize-Ends cfg =
        Ends-next (Written p) w (released p s w cfg) _ (released-Once cfg)
          (λ cfg a. after_write-Ends (Written p) w cfg _ (share_updated w _))
