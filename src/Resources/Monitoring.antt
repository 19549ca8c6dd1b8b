-- ===== src/Resources/Monitoring.antt =====
-- internal/resources/metrics.go: the service for metrics and its monitor, which are made on OpenShift
-- only.
pub mod Watched
pub mod Kept
pub mod Writes
use samba_operator.Base.{String, ◌<>◌, Bool, true, false, Option, none, some, [], ◌∷◌}
use samba_operator.Base.{if◌then◌else◌}
use samba_operator.Conf.{OperatorConfig}
use samba_operator.Planner.Instance.{Planner}
use samba_operator.Planner.Properties.{instance_name}
use samba_operator.Resources.Attempt.{Attempt, gives, errs, crashes}
use samba_operator.Resources.Objects.{Service, ServiceMonitor}
use samba_operator.Resources.Labels.{labels_for_managed_resource}
use samba_operator.Resources.Metrics.{
  metrics_instance_name, default_metrics_port_name, default_metrics_path,
}
use samba_operator.Resources.Workloads.{new_meta}
use samba_operator.Resources.MetricsService.{new_metrics_service}
use samba_operator.Resources.Platform.{Platform}
use samba_operator.Resources.Getters.{object_key}
use samba_operator.Resources.Ensure.{ensure}
use samba_operator.Resources.Grants.{is_open_shift_cluster}

abbrev pub default_metrics_scrape_interval : String
default_metrics_scrape_interval = "1m"

unfoldable pub metrics_monitor_name : Planner → String
unfolding instance_name
metrics_monitor_name pl = instance_name pl <> "-metrics-monitor"

-- The version and kind are those of the share in memory.
unfoldable pub new_metrics_service_monitor : String → String → Planner → String → ServiceMonitor
unfolding labels_for_managed_resource metrics_instance_name metrics_monitor_name
new_metrics_service_monitor api_version kind pl ns =
    let labels = labels_for_managed_resource (metrics_instance_name pl) in
    record {
      metadata = record (new_meta (metrics_monitor_name pl) ns labels []) {
        owner_references =
            record {
              api_version = api_version;
              kind = kind;
              name = pl.smb_share.metadata.name;
              uid = pl.smb_share.metadata.uid;
              controller = none;
              block_owner_deletion = none;
            }
            ∷ [];
      };
      match_names = ns ∷ [];
      match_labels = labels;
      endpoints =
          record {
            port = default_metrics_port_name;
            path = default_metrics_path;
            interval = default_metrics_scrape_interval;
          }
          ∷ [];
    }

module _ {W : Type 0} where
  -- The object in the place of a pointer to it.
  pointed : {A : Type 0} → W × Attempt (Bool × A) → W × Attempt (Bool × Option A)
  pointed (w, gives (created, obj)) = (w, gives (created, some obj))
  pointed (w, errs e) = (w, errs e)
  pointed (w, crashes) = (w, crashes)

  module _ (p : Platform W) where
    on_open_shift : {A : Type 0} → Bool → W → W × Attempt (Bool × A) → W × Attempt (Bool × Option A)
    unfolding pointed
    on_open_shift true w made = pointed made
    on_open_shift false w made = (w, gives (false, none))

    unfoldable pub get_or_create_metrics_service :
        W → OperatorConfig → Planner → String → W × Attempt (Bool × Option Service)
    unfolding on_open_shift is_open_shift_cluster ensure metrics_instance_name new_metrics_service
    get_or_create_metrics_service w cfg pl ns = on_open_shift (is_open_shift_cluster p w cfg) w (
        ensure p.is_already_exists p.services (object_key ns (metrics_instance_name pl)) w
          (new_metrics_service p.api_version p.kind pl ns))

    unfoldable pub get_or_create_metrics_service_monitor :
        W → OperatorConfig → Planner → String → W × Attempt (Bool × Option ServiceMonitor)
    unfolding on_open_shift is_open_shift_cluster ensure metrics_monitor_name
        new_metrics_service_monitor
    get_or_create_metrics_service_monitor w cfg pl ns =
        on_open_shift (is_open_shift_cluster p w cfg) w (
          ensure p.is_already_exists p.service_monitors (object_key ns (metrics_monitor_name pl)) w
            (new_metrics_service_monitor p.api_version p.kind pl ns))
