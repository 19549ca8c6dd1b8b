-- ===== src/Planner/Misc.antt =====
-- internal/planner/misc.go
use samba_operator.Base.{String, ◌==◌, ◌!=◌, Bool, true, false, Option, none, some}
use samba_operator.Base.{if◌then◌else◌, or_zero}
use samba_operator.Base.Dict.{lookup}
use samba_operator.Base.Panics.{Run, returns, ◌>>=◌, deref}
use samba_operator.Api.SmbSecurityConfig.{SmbSecurityConfig}
use samba_operator.Planner.Instance.{Planner}
use samba_operator.Planner.Properties.{user_mode, ad_mode, security_mode}

abbrev pub node_spread_key : String
node_spread_key = "samba-operator.samba.org/node-spread"

abbrev pub node_spread_disable : String
node_spread_disable = "false"

pub record UserSecuritySource : Type 0 where
  pub configured : Bool
  pub namespace : String
  pub secret : String
  pub key : String

abbrev pub no_source : UserSecuritySource
no_source = record { configured = false; namespace = ""; secret = ""; key = "" }

source_of : Option SmbSecurityConfig → UserSecuritySource
source_of none = no_source
source_of (some c) = elim c.spec.users [
  | none ↦ no_source
  | some u ↦ record {
    configured = true;
    namespace = c.metadata.namespace;
    secret = u.secret;
    key = u.key;
  }
]

unfoldable pub user_security_source : Planner → UserSecuritySource
unfolding source_of security_mode
user_security_source pl =
    if security_mode pl == user_mode then source_of pl.security_config else no_source

abbrev pub dns_register_never : String
dns_register_never = "never"

abbrev pub dns_register_external_ip : String
dns_register_external_ip = "external-ip"

abbrev pub dns_register_cluster_ip : String
dns_register_cluster_ip = "cluster-ip"

-- The `switch` that reverts all but the two allowed values.
allowed_register : String → String
allowed_register reg =
    if reg == dns_register_external_ip
    then dns_register_external_ip
    else if reg == dns_register_cluster_ip
    then dns_register_cluster_ip
    else dns_register_never

requested_register : SmbSecurityConfig → String
requested_register c = elim c.spec.dns [ none ↦ dns_register_never | some d ↦ d.register ]

-- `&&` reads `pl.SecurityConfig` only in AD mode.
unfoldable pub dns_register : Planner → Run String
unfolding allowed_register requested_register security_mode
dns_register pl =
    let asked = (do
      c ← deref pl.security_config
      returns (allowed_register (requested_register c))) in
    if security_mode pl == ad_mode then asked else returns dns_register_never

unfoldable pub service_type : Planner → String
service_type pl = elim pl.common_config [
  | none ↦ "ClusterIP"
  | some c ↦ if c.spec.network.publish == "external" then "LoadBalancer" else "ClusterIP"
]

unfoldable pub samba_container_debug_level : Planner → String
samba_container_debug_level pl = pl.global_config.samba_debug_level

unfoldable pub may_cluster : Planner → Bool
may_cluster pl = pl.global_config.cluster_support == "ctdb-is-experimental"

unfoldable pub node_spread : Planner → Bool
unfolding lookup
node_spread pl =
    or_zero (lookup node_spread_key pl.smb_share.metadata.annotations) != node_spread_disable
