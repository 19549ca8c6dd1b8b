-- ===== src/Api/SmbSecurityConfig.antt =====
-- api/v1alpha1/smbsecurityconfig_types.go
use samba_operator.Base.{String, Option, List}
use samba_operator.Api.Meta.{ObjectMeta}

pub record SmbSecurityUsersSpec : Type 0 where
  pub secret : String
  pub key : String

pub record SmbSecurityUserJoinSpec : Type 0 where
  pub secret : String
  pub key : String

pub record SmbSecurityJoinSpec : Type 0 where
  pub user_join : Option SmbSecurityUserJoinSpec

pub record SmbSecurityDomainSpec : Type 0 where
  pub name : String
  pub backend : String

pub record SmbSecurityDnsSpec : Type 0 where
  pub register : String

pub record SmbSecurityConfigSpec : Type 0 where
  pub mode : String
  pub users : Option SmbSecurityUsersSpec
  pub realm : String
  pub join_sources : List SmbSecurityJoinSpec
  pub domains : List SmbSecurityDomainSpec
  pub dns : Option SmbSecurityDnsSpec

pub record SmbSecurityConfig : Type 0 where
  pub metadata : ObjectMeta
  pub spec : SmbSecurityConfigSpec
