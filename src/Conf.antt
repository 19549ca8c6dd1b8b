-- ===== src/Conf.antt =====
-- internal/conf/config.go: the operator's own settings.
pub mod Validated
pub mod Source
use samba_operator.Base.{String, ◌<>◌, ◌==◌, Option, none, some, if◌then◌else◌}
use samba_operator.Base.Int.{ℤ, pos, le_zero, itoa}

abbrev pub cluster_type_default : String
cluster_type_default = "default"

abbrev pub cluster_type_open_shift : String
cluster_type_open_shift = "openshift"

pub record OperatorConfig : Type 0 where
  pub smbd_container_image : String
  pub smbd_metrics_container_image : String
  pub svc_watch_container_image : String
  pub smbd_container_name : String
  pub winbind_container_name : String
  pub working_namespace : String
  pub samba_debug_level : String
  pub state_pvc_size : String
  pub cluster_support : String
  pub smb_service_port : ℤ
  pub smbd_port : ℤ
  pub service_account_name : String
  pub metrics_exporter_mode : String
  pub pod_name : String
  pub pod_namespace : String
  pub pod_ip : String
  pub image_pull_policy : String
  pub default_node_selector : String
  pub cluster_type : String

abbrev pub default_operator_config : OperatorConfig
default_operator_config = record {
  smbd_container_image = "quay.io/samba.org/samba-server:latest";
  smbd_metrics_container_image = "quay.io/samba.org/samba-metrics:latest";
  svc_watch_container_image = "quay.io/samba.org/svcwatch:latest";
  smbd_container_name = "samba";
  winbind_container_name = "wb";
  working_namespace = "";
  samba_debug_level = "";
  state_pvc_size = "1Gi";
  cluster_support = "";
  smb_service_port = pos 445;
  smbd_port = pos 445;
  service_account_name = "";
  metrics_exporter_mode = "disabled";
  pod_name = "";
  pod_namespace = "";
  pod_ip = "";
  image_pull_policy = "IfNotPresent";
  default_node_selector = "";
  cluster_type = "";
}

-- The error that `Validate` returns, if any.
unfoldable pub validate : OperatorConfig → Option String
unfolding itoa
validate oc =
    if oc.working_namespace == ""
    then some ("WorkingNamespace value [" <> oc.working_namespace <> "] invalid")
    else if le_zero oc.smb_service_port
    then some ("SmbPort value [" <> itoa oc.smb_service_port <> "] invalid")
    else if le_zero oc.smbd_port
    then some ("SmbPort value [" <> itoa oc.smbd_port <> "] invalid")
    else none
