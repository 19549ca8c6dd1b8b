-- ===== src/Api/SmbShare.antt =====
-- api/v1alpha1/smbshare_types.go
use samba_operator.Base.{String, Bool, Option, List}
use samba_operator.Base.Dict.{Dict}
use samba_operator.Base.Int.{ℤ}
use samba_operator.Api.Meta.{ObjectMeta}

-- corev1.PersistentVolumeClaimSpec: the access mode and the storage request that the operator
-- sets; what a user writes beside them is passed on unread.
pub record PersistentVolumeClaimSpec : Type 0 where
  pub access_modes : List String
  pub storage_request : String
  pub other : String

pub record SmbSharePvcSpec : Type 0 where
  pub name : String
  pub spec : Option PersistentVolumeClaimSpec
  pub path : String

pub record SmbShareStorageSpec : Type 0 where
  pub pvc : Option SmbSharePvcSpec

pub record SmbShareConfig : Type 0 where
  pub use_unsafe_custom_config : Bool
  pub configs : Dict String

pub record SmbShareScalingSpec : Type 0 where
  pub availability_mode : String
  pub min_cluster_size : ℤ
  pub group : String
  pub group_mode : String

pub record SmbShareSpec : Type 0 where
  pub share_name : String
  pub storage : SmbShareStorageSpec
  pub read_only : Bool
  pub browseable : Bool
  pub security_config : String
  pub common_config : String
  pub custom_share_config : Option SmbShareConfig
  pub scaling : Option SmbShareScalingSpec

pub record SmbShareStatus : Type 0 where
  pub server_group : String

pub record SmbShare : Type 0 where
  pub metadata : ObjectMeta
  pub spec : SmbShareSpec
  pub status : SmbShareStatus
