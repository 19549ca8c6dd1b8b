-- ===== src/Resources/Monitoring/Kept.antt =====
-- Where the service for metrics and its monitor exist, the steps for them write nothing.
use samba_operator.Base.{◌≡◌, refl, String, Bool, true, false, Option, some, none}
use samba_operator.Conf.{OperatorConfig}
use samba_operator.Planner.Instance.{Planner}
use samba_operator.Resources.Kube.{got}
use samba_operator.Resources.Attempt.{Attempt, gives}
use samba_operator.Resources.Objects.{Service, ServiceMonitor}
use samba_operator.Resources.Metrics.{metrics_instance_name}
use samba_operator.Resources.MetricsService.{new_metrics_service}
use samba_operator.Resources.Platform.{Platform}
use samba_operator.Resources.Getters.{object_key}
use samba_operator.Resources.Ensure.{ensure_found}
use samba_operator.Resources.Grants.{is_open_shift_cluster}
use samba_operator.Resources.Monitoring.{
  pointed, on_open_shift, metrics_monitor_name, new_metrics_service_monitor,
  get_or_create_metrics_service, get_or_create_metrics_service_monitor,
}

module _ {W : Type 0} (p : Platform W) (w : W) (cfg : OperatorConfig) where
  -- Nothing is created.
  abbrev pub Nothing : {A : Type 0} → W × Attempt (Bool × Option A) → Type 0
  Nothing {A} r = (o : Option A) × (r ≡ (w, gives (false, o)))

  on_open_shift_kept :
      {A : Type 0} (b : Bool) (r : W × Attempt (Bool × A))
      → (b ≡ true → (a : A) × (r ≡ (w, gives (false, a))))
      → Nothing (on_open_shift p b w r)
  unfolding on_open_shift pointed
  on_open_shift_kept false r h = (none, refl)
  on_open_shift_kept true r h = let (a, made) = h refl in (some a, rw made refl)

  pub get_or_create_metrics_service_kept :
      (pl : Planner) (ns : String)
      → (is_open_shift_cluster p w cfg ≡ true
          → (a : Service) × (p.services.get w (object_key ns (metrics_instance_name pl)) ≡ got a))
      → Nothing (get_or_create_metrics_service p w cfg pl ns)
  unfolding get_or_create_metrics_service
  get_or_create_metrics_service_kept pl ns h =
      on_open_shift_kept (is_open_shift_cluster p w cfg) _ (λ on.
        let (a, exists) = h on in
        (
          a,
          ensure_found p.is_already_exists p.services (object_key ns (metrics_instance_name pl)) w
              (new_metrics_service p.api_version p.kind pl ns) a exists,
        ))

  pub get_or_create_metrics_service_monitor_kept :
      (pl : Planner) (ns : String)
      → (is_open_shift_cluster p w cfg ≡ true
          → (a : ServiceMonitor) × (p.service_monitors.get w
                (object_key ns (metrics_monitor_name pl))
              ≡ got a))
      → Nothing (get_or_create_metrics_service_monitor p w cfg pl ns)
  unfolding get_or_create_metrics_service_monitor
  get_or_create_metrics_service_monitor_kept pl ns h =
      on_open_shift_kept (is_open_shift_cluster p w cfg) _ (λ on.
        let (a, exists) = h on in
        (
          a,
          ensure_found p.is_already_exists p.service_monitors
              (object_key ns (metrics_monitor_name pl)) w
              (new_metrics_service_monitor p.api_version p.kind pl ns) a exists,
        ))
