-- ===== src/Planner/Properties.antt =====
-- internal/planner/properties.go
use samba_operator.Base.{String, ◌==◌, Bool, false, Option, none, some}
use samba_operator.Base.{if◌then◌else◌}
use samba_operator.Base.Int.{ℤ, pos, int32}
use samba_operator.Base.Panics.{Run, returns, ◌>>=◌, deref}
use samba_operator.Base.Strings.{to_upper, before}
use samba_operator.Api.SmbSecurityConfig.{SmbSecurityConfig}
use samba_operator.Planner.Instance.{Planner}

-- The types `SecurityMode` and `GroupMode` are strings, so that a resource may hold any other one.
abbrev pub user_mode : String
user_mode = "user"

abbrev pub ad_mode : String
ad_mode = "active-directory"

abbrev pub group_mode_never : String
group_mode_never = "never"

abbrev pub group_mode_explicit : String
group_mode_explicit = "explicit"

abbrev pub group_mode_unset : String
group_mode_unset = ""

unfoldable pub instance_name : Planner → String
instance_name pl = pl.smb_share.status.server_group

mode_of : Option SmbSecurityConfig → String
mode_of none = user_mode
mode_of (some c) =
    if c.spec.mode == user_mode
    then user_mode
    else if c.spec.mode == ad_mode
    then ad_mode
    else user_mode

unfoldable pub security_mode : Planner → String
unfolding mode_of
security_mode pl = mode_of pl.security_config

unfoldable pub realm : Planner → Run String
realm pl = do c ← deref pl.security_config; returns (to_upper c.spec.realm)

unfoldable pub workgroup : Planner → Run String
unfolding realm
workgroup pl = do r ← realm pl; returns (before "." r)

unfoldable pub is_clustered : Planner → Bool
is_clustered pl = elim pl.smb_share.spec.scaling [
  | none ↦ false
  | some s ↦ s.availability_mode == "clustered"
]

unfoldable pub cluster_size : Planner → ℤ
unfolding int32
cluster_size pl = elim pl.smb_share.spec.scaling [
  | none ↦ pos 1
  | some s ↦ int32 s.min_cluster_size
]

-- The sanitised mode and the group's name.
unfoldable pub grouping : Planner → String × String
grouping pl = elim pl.smb_share.spec.scaling [
  | none ↦ (group_mode_never, "")
  | some s ↦
      if s.group_mode == group_mode_explicit
      then (group_mode_explicit, s.group)
      else (group_mode_never, "")
]
