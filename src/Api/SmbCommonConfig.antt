-- ===== src/Api/SmbCommonConfig.antt =====
-- api/v1alpha1/smbcommonconfig_types.go
use samba_operator.Base.{String, Bool, Option, List}
use samba_operator.Base.Dict.{Dict}
use samba_operator.Api.Meta.{ObjectMeta}

pub record SmbCommonNetworkSpec : Type 0 where
  pub publish : String

-- corev1.PodAffinityTerm with a selector of one requirement, as the operator writes it.
pub record PodAffinityTerm : Type 0 where
  pub topology_key : String
  pub key : String
  pub operator : String
  pub values : List String

pub record PodAntiAffinity : Type 0 where
  pub required : List PodAffinityTerm
  pub preferred : String

-- corev1.Affinity. The parts that the operator passes on unread are texts.
pub record Affinity : Type 0 where
  pub node_affinity : Option String
  pub pod_affinity : Option String
  pub pod_anti_affinity : Option PodAntiAffinity

pub record SmbCommonConfigPodSettings : Type 0 where
  pub node_selector : Dict String
  pub affinity : Option Affinity

pub record SmbCommonConfigGlobalConfig : Type 0 where
  pub use_unsafe_custom_config : Bool
  pub configs : Dict String

pub record SmbCommonConfigSpec : Type 0 where
  pub network : SmbCommonNetworkSpec
  pub pod_settings : Option SmbCommonConfigPodSettings
  pub custom_global_config : Option SmbCommonConfigGlobalConfig

pub record SmbCommonConfig : Type 0 where
  pub metadata : ObjectMeta
  pub spec : SmbCommonConfigSpec
