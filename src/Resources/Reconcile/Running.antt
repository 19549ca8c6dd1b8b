-- ===== src/Resources/Reconcile/Running.antt =====
-- What runs the server of a share, where the steps for its objects go on.
use samba_operator.Base.{◌≡◌, refl, Bool, true, false, some, if◌then◌else◌}
use samba_operator.Conf.{OperatorConfig}
use samba_operator.Planner.Instance.{Planner}
use samba_operator.Planner.Properties.{is_clustered}
use samba_operator.Resources.Kube.{got}
use samba_operator.Resources.Objects.{Service, ServiceMonitor}
use samba_operator.Resources.Metrics.{metrics_instance_name}
use samba_operator.Resources.Platform.{Platform}
use samba_operator.Resources.Refusing.{Refusing}
use samba_operator.Resources.Getters.{object_key}
use samba_operator.Resources.Grants.{is_open_shift_cluster}
use samba_operator.Resources.Monitoring.{metrics_monitor_name}
use samba_operator.Resources.Monitoring.Watched.{
  get_or_create_metrics_service-Reads, get_or_create_metrics_service_monitor-Reads,
}
use samba_operator.Resources.Servers.{
  update_clustered_state, update_non_clustered_state, update_metrics_service,
  update_metrics_service_monitor,
}
use samba_operator.Resources.Servers.Running.{
  Kept, Clustered, Standing, Served, update_clustered_state-Reads, update_non_clustered_state-Reads,
  update_smb_service-Reads,
}
use samba_operator.Resources.Step.{
  Reads, Reads-kept, Reads-weaken, Reads-go, after_attempt-kept, after_attempt,
}
use samba_operator.Resources.Reconcile.{server_steps}

module _ {W : Type 0} (p : Platform W) (refusing : Refusing p) (w : W) where
  -- The service for metrics and its monitor exist on OpenShift.
  pub record Watched (cfg : OperatorConfig) (pl : Planner) : Type 0 where
    pub service :
        is_open_shift_cluster p w cfg ≡ true
        → (a : Service) × (p.services.get w
              (object_key pl.smb_share.metadata.namespace (metrics_instance_name pl))
            ≡ got a)
    pub monitor :
        is_open_shift_cluster p w cfg ≡ true
        → (a : ServiceMonitor) × (p.service_monitors.get w
              (object_key pl.smb_share.metadata.namespace (metrics_monitor_name pl))
            ≡ got a)

  -- What runs the server of a planner.
  pub record Running (cfg : OperatorConfig) (pl : Planner) : Type 0 where
    pub clustered : is_clustered pl ≡ true → Clustered p w pl
    pub standing : is_clustered pl ≡ false → Standing p w pl
    pub served : Served p w pl
    pub watched : Watched cfg pl

  module _ (cfg : OperatorConfig) where
    abbrev HasState : Planner → Type 0
    HasState pl =
        (is_clustered pl ≡ true → Clustered p w pl) × (is_clustered pl ≡ false → Standing p w pl)

    state_by :
        (pl : Planner) (b : Bool)
        → is_clustered pl ≡ b
        → Reads w
            (Kept p w cfg {A = Unit} (λ a. HasState pl))
            ((if b then update_clustered_state p pl else update_non_clustered_state p pl) w cfg)
    state_by pl true e =
        Reads-weaken (Kept p w cfg (λ a. Clustered p w pl)) (Kept p w cfg (λ a. HasState pl)) w
          (update_clustered_state p pl w cfg)
          (λ c a (same, state). (same, (λ h. state, λ h. cc (h, e))))
          (update_clustered_state-Reads p w cfg pl)
    state_by pl false e =
        Reads-weaken (Kept p w cfg (λ a. Standing p w pl)) (Kept p w cfg (λ a. HasState pl)) w
          (update_non_clustered_state p pl w cfg)
          (λ c a (same, state). (same, (λ h. cc (h, e), λ h. state)))
          (update_non_clustered_state-Reads p w cfg pl)

    -- `Q` where the operator runs on OpenShift.
    abbrev Where : {A : Type 0} → (A → Type 0) → Type 0
    Where {A} Q = is_open_shift_cluster p w cfg ≡ true → (a : A) × Q a

    abbrev ServiceExists : Planner → Unit {0} → Type 0
    ServiceExists pl a = Where (λ b.
        p.services.get w (object_key pl.smb_share.metadata.namespace (metrics_instance_name pl))
        ≡ got b)

    abbrev MonitorExists : Planner → Unit {0} → Type 0
    MonitorExists pl a = Where (λ b.
        p.service_monitors.get w
          (object_key pl.smb_share.metadata.namespace (metrics_monitor_name pl))
        ≡ got b)

    update_metrics_service-Reads :
        (pl : Planner)
        → Reads w (Kept p w cfg (ServiceExists pl)) (update_metrics_service p pl w cfg)
    unfolding update_metrics_service after_attempt
    update_metrics_service-Reads pl =
        let ns = pl.smb_share.metadata.namespace in
        let R = Kept p w cfg (ServiceExists pl) in
        Reads-kept w cfg
          (λ o.
            is_open_shift_cluster p w cfg ≡ true
            → (a : Service) × (o ≡ some a)
              × (p.services.get w (object_key ns (metrics_instance_name pl)) ≡ got a))
          R _ _
          (after_attempt-kept w cfg _ _
            (get_or_create_metrics_service-Reads p w cfg refusing pl ns))
          (λ o found.
            Reads-go w cfg tt R (refl, λ on. let (a, is, exists) = found on in (a, exists)))

    update_metrics_service_monitor-Reads :
        (pl : Planner)
        → Reads w (Kept p w cfg (MonitorExists pl)) (update_metrics_service_monitor p pl w cfg)
    unfolding update_metrics_service_monitor after_attempt
    update_metrics_service_monitor-Reads pl =
        let ns = pl.smb_share.metadata.namespace in
        let R = Kept p w cfg (MonitorExists pl) in
        Reads-kept w cfg
          (λ o.
            is_open_shift_cluster p w cfg ≡ true
            → (a : ServiceMonitor) × (o ≡ some a)
              × (p.service_monitors.get w (object_key ns (metrics_monitor_name pl)) ≡ got a))
          R _ _
          (after_attempt-kept w cfg _ _
            (get_or_create_metrics_service_monitor-Reads p w cfg refusing pl ns))
          (λ o found.
            Reads-go w cfg tt R (refl, λ on. let (a, is, exists) = found on in (a, exists)))

    pub server_steps-Reads :
        (pl : Planner) → Reads w (Kept p w cfg (λ a. Running cfg pl)) (server_steps p pl w cfg)
    unfolding server_steps
    server_steps-Reads pl =
        let R = Kept p w cfg {A = Unit} (λ a. Running cfg pl) in
        Reads-kept w cfg (λ (a : Unit). HasState pl) R _ _ (state_by pl (is_clustered pl) refl)
          (λ u (clustered, standing).
            Reads-kept w cfg (λ (a : Unit). Served p w pl) R _ _
              (update_smb_service-Reads p w cfg pl)
              (λ u₁ served.
                Reads-kept w cfg _ R _ _ (update_metrics_service-Reads pl) (λ u₂ service.
                  Reads-weaken _ R w _
                    (λ c a (same, monitor). (
                      same,
                      record {
                        clustered = clustered;
                        standing = standing;
                        served = served;
                        watched = record { service = service; monitor = monitor };
                      },
                    ))
                    (update_metrics_service_monitor-Reads pl))))
