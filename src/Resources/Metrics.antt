-- ===== src/Resources/Metrics.antt =====
-- internal/resources/metrics.go: what a pod has for the metrics exporter.
use samba_operator.Base.{String, ◌<>◌, ◌==◌, Bool, some, none, List, [], ◌∷◌}
use samba_operator.Base.Dict.{Dict}
use samba_operator.Base.Int.{ℤ, pos, itoa, int32}
use samba_operator.Base.Strings.{to_lower}
use samba_operator.Conf.{OperatorConfig}
use samba_operator.Planner.Instance.{Planner}
use samba_operator.Planner.Properties.{instance_name}
use samba_operator.Resources.Objects.{EnvVar, VolumeMount, Container, tcp_socket}

abbrev pub default_metrics_port : ℤ
default_metrics_port = pos 8080

abbrev pub default_metrics_path : String
default_metrics_path = "/metrics"

abbrev pub default_metrics_port_name : String
default_metrics_port_name = "samba-metrics"

unfoldable pub annotations_for_smb_metrics_pod : Dict String
unfolding itoa
annotations_for_smb_metrics_pod =
    ("prometheus.io/scrape", "true")
    ∷ ("prometheus.io/port", itoa default_metrics_port)
    ∷ ("prometheus.io/path", default_metrics_path)
    ∷ []

unfoldable pub build_smb_metrics_container : String → List EnvVar → List VolumeMount → Container
unfolding int32
build_smb_metrics_container image env volmnts = record {
  image = image;
  image_pull_policy = "";
  name = "samba-metrics";
  command = "/bin/smbmetrics" ∷ [];
  args = [];
  env = env;
  ports = record { container_port = int32 default_metrics_port; name = "smbmetrics" } ∷ [];
  volume_mounts = volmnts;
  readiness_probe = some (tcp_socket (int32 default_metrics_port));
  liveness_probe = some (tcp_socket (int32 default_metrics_port));
  security_context = none;
}

unfoldable pub metrics_instance_name : Planner → String
unfolding instance_name
metrics_instance_name pl = instance_name pl <> "-metrics"

-- internal/resources/deployments.go
unfoldable pub with_metrics_exporter : OperatorConfig → Bool
unfolding to_lower
with_metrics_exporter cfg = to_lower cfg.metrics_exporter_mode == "enabled"
