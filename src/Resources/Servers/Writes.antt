-- ===== src/Resources/Servers/Writes.antt =====
-- The steps for a server's objects write at most once.
use samba_operator.Base.{refl, inl}
use samba_operator.Base.Int.{ℤ}
use samba_operator.Base.Panics.{Run, returns, panics}
use samba_operator.Api.SmbShare.{SmbShare}
use samba_operator.Conf.{OperatorConfig}
use samba_operator.Planner.Instance.{Planner}
use samba_operator.Planner.Misc.{may_cluster}
use samba_operator.Resources.Objects.{Workload}
use samba_operator.Resources.Claims.{claim_ownership}
use samba_operator.Resources.Claims.Writes.{claim_ownership-Changes}
use samba_operator.Resources.Sizes.{update_stateful_set_size, update_deployment_size}
use samba_operator.Resources.Sizes.Writes.{
  update_stateful_set_size-Answers, update_deployment_size-Answers,
}
use samba_operator.Resources.Platform.{Platform}
use samba_operator.Resources.Refusing.{Refusing}
use samba_operator.Resources.Getters.{
  set_workload_meta, set_service_meta, get_or_create_pvc, get_or_create_state_pvc,
  get_or_create_stateful_set, get_or_create_deployment, get_or_create_service,
}
use samba_operator.Resources.Getters.Writes.{
  get_or_create-Answers, get_or_create_pvc-Answers, get_or_create_state_pvc-Answers,
}
use samba_operator.Resources.Monitoring.{
  get_or_create_metrics_service, get_or_create_metrics_service_monitor,
}
use samba_operator.Resources.Monitoring.Writes.{
  get_or_create_metrics_service-Answers, get_or_create_metrics_service_monitor-Answers,
}
use samba_operator.Resources.Once.{
  Once, attempt-Once, change-Once, after_attempt-Once, either-Once, Once-next,
}
use samba_operator.Resources.Written.{
  Written, pvc_created, stateful_set_created, stateful_set_updated, deployment_created,
  deployment_updated, service_created, service_updated,
}
use samba_operator.Resources.Servers.{
  workload_owners, set_workload_owners, service_owners, set_service_owners, wanted_size, update_pvc,
  sized_to, clustered_steps, update_clustered_state, update_non_clustered_state, update_smb_service,
  update_metrics_service, update_metrics_service_monitor,
}

module _ {W : Type 0} (p : Platform W) (w : W) where
  pub update_pvc-Once :
      (s : SmbShare) (cfg : OperatorConfig) → Once (Written p) w (update_pvc p s w cfg)
  unfolding update_pvc
  update_pvc-Once s cfg =
      attempt-Once (Written p) w (λ w. get_or_create_pvc p w s s.metadata.namespace) _ cfg
        (get_or_create_pvc-Answers (Written p) p w (λ c. pvc_created w c) s s.metadata.namespace)
        (λ cfg pvc. refl)

  sized_to-Once :
      (obj : Workload) (size : Run ℤ) (cfg : OperatorConfig)
      → Once (Written p) w (sized_to p obj size w cfg)
  unfolding sized_to
  sized_to-Once obj panics cfg = inl refl
  sized_to-Once obj (returns size) cfg =
      after_attempt-Once (Written p) w cfg
        (update_stateful_set_size p.stateful_sets.update w obj size)
        (update_stateful_set_size-Answers (Written p) p.stateful_sets.update w
          (λ d. stateful_set_updated w d) obj size)

  clustered_steps-Once :
      (pl : Planner) (cfg : OperatorConfig) → Once (Written p) w (clustered_steps p pl w cfg)
  unfolding clustered_steps get_or_create_stateful_set
  clustered_steps-Once pl cfg =
      let s = pl.smb_share in
      let ns = s.metadata.namespace in
      attempt-Once (Written p) w (λ w. get_or_create_state_pvc p w pl ns) _ cfg
        (get_or_create_state_pvc-Answers (Written p) p w (λ c. pvc_created w c) pl ns)
        (λ cfg state.
          attempt-Once (Written p) w (λ w. get_or_create_stateful_set p w pl ns) _ cfg
            (get_or_create-Answers (Written p) p w p.stateful_sets (λ d. d.metadata)
              set_workload_meta (λ d. stateful_set_created w d) s _ _)
            (λ cfg found.
              change-Once (Written p) w
                (λ w.
                  claim_ownership p.stateful_sets.update workload_owners set_workload_owners
                    p.runtime.group_of w s found)
                _ cfg
                (claim_ownership-Changes (Written p) w p.stateful_sets.update workload_owners
                  set_workload_owners (λ d. stateful_set_updated w d) p.runtime.group_of s found)
                (λ cfg owned.
                  Once-next (Written p) w (sized_to p owned (wanted_size pl) w cfg) _
                    (sized_to-Once owned (wanted_size pl) cfg) (λ cfg sized. refl))))

  pub update_clustered_state-Once :
      (pl : Planner) (cfg : OperatorConfig) → Once (Written p) w (update_clustered_state p pl w cfg)
  unfolding update_clustered_state
  update_clustered_state-Once pl cfg =
      either-Once (Written p) w (may_cluster pl) (clustered_steps p pl w cfg) _
        (clustered_steps-Once pl cfg) (inl refl)

  pub update_non_clustered_state-Once :
      (pl : Planner) (cfg : OperatorConfig)
      → Once (Written p) w (update_non_clustered_state p pl w cfg)
  unfolding update_non_clustered_state get_or_create_deployment
  update_non_clustered_state-Once pl cfg =
      let s = pl.smb_share in
      attempt-Once (Written p) w (λ w. get_or_create_deployment p w cfg pl s.metadata.namespace) _
        cfg
        (get_or_create-Answers (Written p) p w p.deployments (λ d. d.metadata) set_workload_meta
          (λ d. deployment_created w d) s _ _)
        (λ cfg found.
          change-Once (Written p) w
            (λ w.
              claim_ownership p.deployments.update workload_owners set_workload_owners
                p.runtime.group_of w s found)
            _ cfg
            (claim_ownership-Changes (Written p) w p.deployments.update workload_owners
              set_workload_owners (λ d. deployment_updated w d) p.runtime.group_of s found)
            (λ cfg owned.
              attempt-Once (Written p) w (λ w. update_deployment_size p.deployments.update w owned)
                _ cfg
                (update_deployment_size-Answers (Written p) p.deployments.update w
                  (λ d. deployment_updated w d) owned)
                (λ cfg sized. refl)))

  pub update_smb_service-Once :
      (pl : Planner) (cfg : OperatorConfig) → Once (Written p) w (update_smb_service p pl w cfg)
  unfolding update_smb_service get_or_create_service
  update_smb_service-Once pl cfg =
      let s = pl.smb_share in
      attempt-Once (Written p) w (λ w. get_or_create_service p w pl s.metadata.namespace) _ cfg
        (get_or_create-Answers (Written p) p w p.services (λ d. d.metadata) set_service_meta
          (λ d. service_created w d) s _ _)
        (λ cfg found.
          change-Once (Written p) w
            (λ w.
              claim_ownership p.services.update service_owners set_service_owners p.runtime.group_of
                w s found)
            _ cfg
            (claim_ownership-Changes (Written p) w p.services.update service_owners
              set_service_owners (λ d. service_updated w d) p.runtime.group_of s found)
            (λ cfg owned. refl))

  module _ (refusing : Refusing p) (pl : Planner) (cfg : OperatorConfig) where
    pub update_metrics_service-Once : Once (Written p) w (update_metrics_service p pl w cfg)
    unfolding update_metrics_service
    update_metrics_service-Once =
        attempt-Once (Written p) w
          (λ w. get_or_create_metrics_service p w cfg pl pl.smb_share.metadata.namespace) _ cfg
          (get_or_create_metrics_service-Answers p refusing w cfg pl
            pl.smb_share.metadata.namespace)
          (λ cfg found. refl)

    pub update_metrics_service_monitor-Once :
        Once (Written p) w (update_metrics_service_monitor p pl w cfg)
    unfolding update_metrics_service_monitor
    update_metrics_service_monitor-Once =
        attempt-Once (Written p) w
          (λ w. get_or_create_metrics_service_monitor p w cfg pl pl.smb_share.metadata.namespace) _
          cfg
          (get_or_create_metrics_service_monitor-Answers p refusing w cfg pl
            pl.smb_share.metadata.namespace)
          (λ cfg found. refl)
