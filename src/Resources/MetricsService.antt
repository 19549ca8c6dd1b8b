-- ===== src/Resources/MetricsService.antt =====
-- internal/resources/metrics.go: the service that `getOrCreateMetricsService` creates.
use samba_operator.Base.{String, none, [], ◌∷◌}
use samba_operator.Base.Int.{int32}
use samba_operator.Planner.Instance.{Planner}
use samba_operator.Resources.Objects.{Service}
use samba_operator.Resources.Labels.{labels_for_managed_resource}
use samba_operator.Resources.Metrics.{
  metrics_instance_name, default_metrics_port, default_metrics_port_name,
}
use samba_operator.Resources.Workloads.{new_meta}

-- The version and kind are those of the share's type.
unfoldable pub new_metrics_service : String → String → Planner → String → Service
unfolding labels_for_managed_resource metrics_instance_name int32
new_metrics_service api_version kind pl ns =
    let labels = labels_for_managed_resource (metrics_instance_name pl) in
    record {
      metadata = record (new_meta (metrics_instance_name pl) ns labels []) {
        owner_references =
            record {
              api_version = api_version;
              kind = kind;
              name = pl.smb_share.metadata.name;
              uid = pl.smb_share.metadata.uid;
              controller = none;
              block_owner_deletion = none;
            }
            ∷ [];
      };
      service_type = "ClusterIP";
      ports =
          record {
            name = default_metrics_port_name;
            protocol = "TCP";
            port = int32 default_metrics_port;
            target_port = int32 default_metrics_port;
          }
          ∷ [];
      selector = labels;
    }
