-- ===== src/Planner/Paths.antt =====
-- internal/planner/paths.go
use samba_operator.Base.{String, ◌<>◌, ◌==◌, ◌!=◌, List, [], ◌∷◌, ℕ, if◌then◌else◌}
use samba_operator.Base.Decimal.{itoa}
use samba_operator.Base.Path.{join_path}
use samba_operator.Base.Panics.{Run, returns, ◌>>=◌, deref}
use samba_operator.Planner.Instance.{Planner}
use samba_operator.Planner.Properties.{group_mode_never, grouping}
use samba_operator.Planner.Misc.{user_security_source}

abbrev pub container_config_dir : String
container_config_dir = "/etc/container-config"

abbrev pub users_config_base_name : String
users_config_base_name = "users.json"

abbrev pub users_config_dir : String
users_config_dir = "/etc/container-users"

abbrev pub winbind_sockets_dir : String
winbind_sockets_dir = "/run/samba/winbindd"

abbrev pub samba_state_dir : String
samba_state_dir = "/var/lib/samba"

abbrev pub os_run_dir : String
os_run_dir = "/run"

abbrev pub join_json_base_name : String
join_json_base_name = "join.json"

abbrev pub service_watch_state_dir : String
service_watch_state_dir = "/var/lib/svcwatch"

unfoldable pub share_mount_path : Planner → String
unfolding grouping join_path
share_mount_path pl =
    let (gmode, gname) = grouping pl in
    if gmode == group_mode_never
    then join_path ("/mnt" ∷ pl.smb_share.metadata.uid ∷ [])
    else join_path ("/mnt" ∷ gname ∷ [])

-- The pointer to the PVC is read with no test for nil.
unfoldable pub share : Planner → Run String
unfolding share_mount_path
share pl = do
  pvc ← deref pl.smb_share.spec.storage.pvc
  returns (
      if pvc.path != ""
      then join_path (share_mount_path pl ∷ "/" ∷ pvc.path ∷ [])
      else share_mount_path pl)

container_config : String
unfolding join_path
container_config = join_path (container_config_dir ∷ "config.json" ∷ [])

users_config : Planner → String
unfolding user_security_source join_path
users_config pl =
    if (user_security_source pl).configured
    then join_path (users_config_dir ∷ users_config_base_name ∷ [])
    else ""

unfoldable pub container_configs : Planner → List String
unfolding container_config users_config
container_configs pl =
    if users_config pl != "" then container_config ∷ users_config pl ∷ [] else container_config ∷ []

unfoldable pub join_json_source_dir : ℕ → String
unfolding itoa
join_json_source_dir index = "/var/tmp/join/" <> itoa index

unfoldable pub join_json_source : ℕ → String
unfolding join_json_source_dir join_path
join_json_source index = join_path (join_json_source_dir index ∷ join_json_base_name ∷ [])

unfoldable pub service_watch_json : String
unfolding join_path
service_watch_json = join_path (service_watch_state_dir ∷ "status.json" ∷ [])
