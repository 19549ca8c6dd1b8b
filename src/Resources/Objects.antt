-- ===== src/Resources/Objects.antt =====
-- The parts of Kubernetes' pods, services and volumes that the operator fills in.
use samba_operator.Base.{String, Bool, Option, List}
use samba_operator.Base.Dict.{Dict}
use samba_operator.Base.Int.{ℤ}
use samba_operator.Api.Meta.{ObjectMeta}
use samba_operator.Api.SmbCommonConfig.{Affinity}
use samba_operator.Api.SmbShare.{PersistentVolumeClaimSpec}

-- corev1.KeyToPath
pub record KeyToPath : Type 0 where
  pub key : String
  pub path : String

-- corev1.VolumeSource. An empty directory has a medium: "" is the default, "Memory" a tmpfs.
pub data VolumeSource : Type 0 where
  persistent_volume_claim : String → VolumeSource
  config_map : String → VolumeSource
  secret : String → List KeyToPath → VolumeSource
  empty_dir : String → VolumeSource

-- corev1.Volume
pub record Volume : Type 0 where
  pub name : String
  pub source : VolumeSource

-- corev1.VolumeMount
pub record VolumeMount : Type 0 where
  pub mount_path : String
  pub name : String

-- corev1.EnvVar: a value, or a field of the pod.
pub data EnvSource : Type 0 where
  value : String → EnvSource
  field_ref : String → EnvSource

pub record EnvVar : Type 0 where
  pub name : String
  pub source : EnvSource

-- corev1.ContainerPort
pub record ContainerPort : Type 0 where
  pub container_port : ℤ
  pub name : String

-- corev1.Probe
pub data Probe : Type 0 where
  tcp_socket : ℤ → Probe
  exec : List String → Probe

-- corev1.SecurityContext
pub record SecurityContext : Type 0 where
  pub privileged : Bool
  pub run_as_non_root : Bool

-- corev1.Container
pub record Container : Type 0 where
  pub image : String
  pub image_pull_policy : String
  pub name : String
  pub command : List String
  pub args : List String
  pub env : List EnvVar
  pub ports : List ContainerPort
  pub volume_mounts : List VolumeMount
  pub readiness_probe : Option Probe
  pub liveness_probe : Option Probe
  pub security_context : Option SecurityContext

-- corev1.PodSpec
pub record PodSpec : Type 0 where
  pub volumes : List Volume
  pub init_containers : List Container
  pub containers : List Container
  pub node_selector : Dict String
  pub service_account_name : String
  pub automount_service_account_token : Option Bool
  pub share_process_namespace : Option Bool
  pub affinity : Option Affinity

-- corev1.PodTemplateSpec
pub record PodTemplateSpec : Type 0 where
  pub labels : Dict String
  pub annotations : Dict String
  pub spec : PodSpec

-- appsv1.Deployment and appsv1.StatefulSet. The number of replicas is a pointer.
pub record Workload : Type 0 where
  pub metadata : ObjectMeta
  pub replicas : Option ℤ
  pub match_labels : Dict String
  pub template : PodTemplateSpec

-- corev1.ServicePort
pub record ServicePort : Type 0 where
  pub name : String
  pub protocol : String
  pub port : ℤ
  pub target_port : ℤ

-- corev1.Service
pub record Service : Type 0 where
  pub metadata : ObjectMeta
  pub service_type : String
  pub ports : List ServicePort
  pub selector : Dict String

-- corev1.PersistentVolumeClaim
pub record PersistentVolumeClaim : Type 0 where
  pub metadata : ObjectMeta
  pub spec : PersistentVolumeClaimSpec

-- corev1.Namespace. Its labels may be a nil map.
pub record Namespace : Type 0 where
  pub name : String
  pub labels : Option (Dict String)
  pub annotations : Dict String
  pub spec : List String

-- corev1.ServiceAccount
pub record ServiceAccount : Type 0 where
  pub metadata : ObjectMeta
  pub automount_service_account_token : Option Bool

-- rbacv1.PolicyRule
pub record PolicyRule : Type 0 where
  pub api_groups : List String
  pub resources : List String
  pub resource_names : List String
  pub verbs : List String

-- rbacv1.Role
pub record Role : Type 0 where
  pub metadata : ObjectMeta
  pub rules : List PolicyRule

-- rbacv1.Subject
pub record Subject : Type 0 where
  pub kind : String
  pub name : String
  pub namespace : String

-- rbacv1.RoleBinding, with the kind and the name of the role that it refers to.
pub record RoleBinding : Type 0 where
  pub metadata : ObjectMeta
  pub subjects : List Subject
  pub role_kind : String
  pub role_name : String

-- monitoringv1.Endpoint
pub record Endpoint : Type 0 where
  pub port : String
  pub path : String
  pub interval : String

-- monitoringv1.ServiceMonitor
pub record ServiceMonitor : Type 0 where
  pub metadata : ObjectMeta
  pub match_names : List String
  pub match_labels : Dict String
  pub endpoints : List Endpoint
