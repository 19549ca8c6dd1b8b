-- ===== src/Resources/Monitoring/Writes.antt =====
-- The service for metrics and its monitor are created with one write each.
use samba_operator.Base.{refl, String, Bool, true, false}
use samba_operator.Conf.{OperatorConfig}
use samba_operator.Planner.Instance.{Planner}
use samba_operator.Resources.Attempt.{Attempt, gives, errs, crashes}
use samba_operator.Resources.Metrics.{metrics_instance_name}
use samba_operator.Resources.MetricsService.{new_metrics_service}
use samba_operator.Resources.Platform.{Platform}
use samba_operator.Resources.Refusing.{Refusing}
use samba_operator.Resources.Getters.{object_key}
use samba_operator.Resources.Ensure.{ensure}
use samba_operator.Resources.Ensure.Writes.{ensure-Answers}
use samba_operator.Resources.Grants.{is_open_shift_cluster}
use samba_operator.Resources.Once.{Answers}
use samba_operator.Resources.Written.{Written, service_created, monitor_created}
use samba_operator.Resources.Monitoring.{
  pointed, on_open_shift, metrics_monitor_name, new_metrics_service_monitor,
  get_or_create_metrics_service, get_or_create_metrics_service_monitor,
}

module _ {W : Type 0} (p : Platform W) (refusing : Refusing p) (w : W) where
  module _ {A : Type 0} where
    pointed-Answers :
        (r : W × Attempt (Bool × A)) → Answers (Written p) w r → Answers (Written p) w (pointed r)
    unfolding pointed
    pointed-Answers (w', errs e) h = h
    pointed-Answers (w', crashes) h = h
    pointed-Answers (w', gives (true, a)) h = h
    pointed-Answers (w', gives (false, a)) h = h

    on_open_shift-Answers :
        (b : Bool) (r : W × Attempt (Bool × A))
        → Answers (Written p) w r
        → Answers (Written p) w (on_open_shift p b w r)
    unfolding on_open_shift
    on_open_shift-Answers true r h = pointed-Answers r h
    on_open_shift-Answers false r h = refl

  pub get_or_create_metrics_service-Answers :
      (cfg : OperatorConfig) (pl : Planner) (ns : String)
      → Answers (Written p) w (get_or_create_metrics_service p w cfg pl ns)
  unfolding get_or_create_metrics_service
  get_or_create_metrics_service-Answers cfg pl ns =
      on_open_shift-Answers (is_open_shift_cluster p w cfg)
        (ensure p.is_already_exists p.services (object_key ns (metrics_instance_name pl)) w
          (new_metrics_service p.api_version p.kind pl ns))
        (ensure-Answers (Written p) p.is_already_exists p.services
          (object_key ns (metrics_instance_name pl)) refusing.services w (λ v. service_created w v)
          (new_metrics_service p.api_version p.kind pl ns))

  pub get_or_create_metrics_service_monitor-Answers :
      (cfg : OperatorConfig) (pl : Planner) (ns : String)
      → Answers (Written p) w (get_or_create_metrics_service_monitor p w cfg pl ns)
  unfolding get_or_create_metrics_service_monitor
  get_or_create_metrics_service_monitor-Answers cfg pl ns =
      on_open_shift-Answers (is_open_shift_cluster p w cfg)
        (ensure p.is_already_exists p.service_monitors (object_key ns (metrics_monitor_name pl)) w
          (new_metrics_service_monitor p.api_version p.kind pl ns))
        (ensure-Answers (Written p) p.is_already_exists p.service_monitors
          (object_key ns (metrics_monitor_name pl)) refusing.service_monitors w
          (λ m. monitor_created w m) (new_metrics_service_monitor p.api_version p.kind pl ns))
