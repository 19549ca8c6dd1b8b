-- ===== src/Resources/Monitoring/Watched.antt =====
-- What exists for the metrics of a server, where the reconciliation goes on.
use samba_operator.Base.{◌≡◌, refl, String, Bool, true, false, some}
use samba_operator.Conf.{OperatorConfig}
use samba_operator.Planner.Instance.{Planner}
use samba_operator.Resources.Kube.{got}
use samba_operator.Resources.Attempt.{Attempt, gives, errs, crashes}
use samba_operator.Resources.Objects.{Service, ServiceMonitor}
use samba_operator.Resources.Metrics.{metrics_instance_name}
use samba_operator.Resources.MetricsService.{new_metrics_service}
use samba_operator.Resources.Platform.{Platform}
use samba_operator.Resources.Step.{Reads, Reads-weaken, after_attempt}
use samba_operator.Resources.Getters.{object_key}
use samba_operator.Resources.Ensure.{ensure-Reads}
use samba_operator.Resources.Refusing.{Refusing}
use samba_operator.Resources.Grants.{is_open_shift_cluster}
use samba_operator.Resources.Monitoring.{
  pointed, on_open_shift, metrics_monitor_name, new_metrics_service_monitor,
  get_or_create_metrics_service, get_or_create_metrics_service_monitor,
}

module _ {W : Type 0} (p : Platform W) (w : W) (cfg : OperatorConfig) where
  module _ {A : Type 0} (Q : A → Type 0) where
    pointed-Reads :
        (r : W × Attempt (Bool × A))
        → Reads w (λ c a. Q a) (after_attempt cfg r)
        → Reads w (λ c o. (a : A) × (o ≡ some a) × Q a) (after_attempt cfg (pointed r))
    unfolding pointed after_attempt
    pointed-Reads (w', errs e) h = refl
    pointed-Reads (w', crashes) h = tt
    pointed-Reads (w', gives (true, a)) h = refl
    pointed-Reads (w', gives (false, a)) (same, q) = (same, (a, refl, q))

    on_open_shift-Reads :
        (b : Bool) (r : W × Attempt (Bool × A))
        → Reads w (λ c a. Q a) (after_attempt cfg r)
        → Reads w
            (λ c o. b ≡ true → (a : A) × (o ≡ some a) × Q a)
            (after_attempt cfg (on_open_shift p b w r))
    unfolding on_open_shift after_attempt
    on_open_shift-Reads false r h = (refl, λ e. cc e)
    on_open_shift-Reads true r h =
        Reads-weaken (λ c o. (a : A) × (o ≡ some a) × Q a)
          (λ c o. true ≡ true → (a : A) × (o ≡ some a) × Q a) w (after_attempt cfg (pointed r))
          (λ c o found e. found) (pointed-Reads r h)

  module _ (refusing : Refusing p) where
    pub get_or_create_metrics_service-Reads :
        (pl : Planner) (ns : String)
        → Reads w
            (λ c o.
              is_open_shift_cluster p w cfg ≡ true
              → (a : Service) × (o ≡ some a)
                × (p.services.get w (object_key ns (metrics_instance_name pl)) ≡ got a))
            (after_attempt cfg (get_or_create_metrics_service p w cfg pl ns))
    unfolding get_or_create_metrics_service
    get_or_create_metrics_service-Reads pl ns =
        on_open_shift-Reads
          (λ a. p.services.get w (object_key ns (metrics_instance_name pl)) ≡ got a)
          (is_open_shift_cluster p w cfg) _
          (ensure-Reads p.is_already_exists p.services (object_key ns (metrics_instance_name pl))
            cfg w (new_metrics_service p.api_version p.kind pl ns) refusing.services)

    pub get_or_create_metrics_service_monitor-Reads :
        (pl : Planner) (ns : String)
        → Reads w
            (λ c o.
              is_open_shift_cluster p w cfg ≡ true
              → (a : ServiceMonitor) × (o ≡ some a)
                × (p.service_monitors.get w (object_key ns (metrics_monitor_name pl)) ≡ got a))
            (after_attempt cfg (get_or_create_metrics_service_monitor p w cfg pl ns))
    unfolding get_or_create_metrics_service_monitor
    get_or_create_metrics_service_monitor-Reads pl ns =
        on_open_shift-Reads
          (λ a. p.service_monitors.get w (object_key ns (metrics_monitor_name pl)) ≡ got a)
          (is_open_shift_cluster p w cfg) _
          (ensure-Reads p.is_already_exists p.service_monitors
            (object_key ns (metrics_monitor_name pl)) cfg w
            (new_metrics_service_monitor p.api_version p.kind pl ns) refusing.service_monitors)
