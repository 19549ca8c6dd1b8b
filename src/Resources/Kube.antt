-- ===== src/Resources/Kube.antt =====
-- The Kubernetes client and the helpers of the controller runtime that the manager calls. They are
-- third-party code, so they are parameters: operations on a world `W` that answer with the world
-- they leave behind. A read may answer anything, since others write to the cluster too.
use samba_operator.Base.{String, ◌≡◌, Bool, Option, some}
use samba_operator.Base.Dict.{Dict}
use samba_operator.Api.Meta.{ObjectMeta, NamespacedName}
use samba_operator.Api.SmbShare.{SmbShare}
use samba_operator.Api.SmbSecurityConfig.{SmbSecurityConfig}
use samba_operator.Api.SmbCommonConfig.{SmbCommonConfig}
use samba_operator.Smbcc.{SambaContainerConfig}
use samba_operator.Resources.Outcome.{Error}

pub data Reply (A : Type 0) : Type 0 where
  got : A → Reply A
  refused : Error → Reply A

-- corev1.ConfigMap. Its `Data` may be a nil map.
pub record ConfigMap : Type 0 where
  pub metadata : ObjectMeta
  pub entries : Option (Dict String)

-- The operations on the objects of one kind. A write answers with its error, if any.
pub record Api (W A : Type 0) : Type 0 where
  pub get : W → NamespacedName → Reply A
  pub create : W → A → W × Option Error
  pub update : W → A → W × Option Error

pub record Client (W : Type 0) : Type 0 where
  pub shares : Api W SmbShare
  pub update_share_status : W → SmbShare → W × Option Error
  pub security_configs : Api W SmbSecurityConfig
  pub common_configs : Api W SmbCommonConfig
  pub config_maps : Api W ConfigMap

-- `encoding/json`: none is an error.
pub record Codec : Type 0 where
  pub marshal : SambaContainerConfig → Option String
  pub unmarshal : String → Option SambaContainerConfig

-- What is encoded decodes to itself.
pub record CodecLaws (codec : Codec) : Type 0 where
  pub unmarshal-marshal :
      (c : SambaContainerConfig) (text : String)
      → codec.marshal c ≡ some text
      → codec.unmarshal text ≡ some c

-- controllerutil and schema: the group of an API version, the finalizers, and the reference that
-- makes a share the controller of an object.
pub record Runtime : Type 0 where
  pub group_of : String → Option String
  pub contains_finalizer : SmbShare → String → Bool
  pub add_finalizer : SmbShare → String → SmbShare
  pub remove_finalizer : SmbShare → String → SmbShare
  pub set_controller_reference : SmbShare → ObjectMeta → Option ObjectMeta
