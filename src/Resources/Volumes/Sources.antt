-- ===== src/Resources/Volumes/Sources.antt =====
-- internal/resources/volumes.go: the volumes of a pod and where its containers mount them.
use samba_operator.Base.{String, ◌<>◌, ℕ, zero, suc, Option, none, some, List, [], ◌∷◌}
use samba_operator.Base.Decimal.{itoa}
use samba_operator.Base.Panics.{Run, returns, ◌>>=◌, deref}
use samba_operator.Planner.Instance.{Planner}
use samba_operator.Planner.Properties.{instance_name}
use samba_operator.Planner.Misc.{user_security_source}
use samba_operator.Planner.Paths
use samba_operator.Resources.Objects.{
  VolumeSource, persistent_volume_claim, config_map, secret, empty_dir,
}
use samba_operator.Resources.Volumes.{
  VolMount, tag_data, tag_config, tag_meta, tag_ctdb_config, tag_ctdb_meta,
}

-- The volume and its mount under one name.
abbrev vol_mount : String → VolumeSource → String → ℕ → VolMount
vol_mount name source path tag = record {
  volume = record { name = name; source = source };
  mount = record { mount_path = path; name = name };
  tag = tag;
}

unfoldable pub share_volume_and_mount : Planner → String → VolMount
unfolding Paths.share_mount_path
share_volume_and_mount pl pvc =
    vol_mount (pvc <> "-smb") (persistent_volume_claim pvc) (Paths.share_mount_path pl) tag_data

unfoldable pub config_volume_and_mount : Planner → VolMount
unfolding instance_name
config_volume_and_mount pl =
    vol_mount "samba-container-config" (config_map (instance_name pl)) Paths.container_config_dir
      tag_config

unfoldable pub user_config_volume_and_mount : Planner → VolMount
unfolding user_security_source
user_config_volume_and_mount pl =
    let uss = user_security_source pl in
    vol_mount "users-config"
      (secret uss.secret (record { key = uss.key; path = Paths.users_config_base_name } ∷ []))
      Paths.users_config_dir tag_config

unfoldable pub samba_state_volume_and_mount : Planner → VolMount
samba_state_volume_and_mount _ =
    vol_mount "samba-state-dir" (empty_dir "") Paths.samba_state_dir tag_meta

unfoldable pub os_run_volume_and_mount : Planner → VolMount
os_run_volume_and_mount _ = vol_mount "run" (empty_dir "Memory") Paths.os_run_dir tag_meta

unfoldable pub wb_sockets_volume_and_mount : Planner → VolMount
wb_sockets_volume_and_mount _ =
    vol_mount "samba-wb-sockets-dir" (empty_dir "Memory") Paths.winbind_sockets_dir tag_meta

unfoldable pub join_json_volume_suffix : String → ℕ → String
unfolding itoa
join_json_volume_suffix v index = v <> ("-" <> itoa index)

-- `s[index]`, where `none` is out of range.
unfoldable pub item {ℓ} : {A : Type ℓ} → List A → ℕ → Option A
item [] i = none
item (x ∷ xs) zero = some x
item (x ∷ xs) (suc i) = item xs i

-- The configuration, the item and its pointer are read with no test.
unfoldable pub join_json_file_volume_and_mount : Planner → ℕ → Run VolMount
unfolding join_json_volume_suffix item Paths.join_json_source_dir
join_json_file_volume_and_mount pl index = do
  c ← deref pl.security_config
  j ← deref (item c.spec.join_sources index)
  user_join ← deref j.user_join
  returns (
      vol_mount (join_json_volume_suffix "join-data" index)
        (secret user_join.secret
          (record { key = user_join.key; path = Paths.join_json_base_name } ∷ []))
        (Paths.join_json_source_dir index) tag_config)

unfoldable pub svc_watch_volume_and_mount : String → VolMount
svc_watch_volume_and_mount dir = vol_mount "svcwatch" (empty_dir "Memory") dir tag_meta

unfoldable pub ctdb_config_volume_and_mount : Planner → VolMount
ctdb_config_volume_and_mount _ =
    vol_mount "ctdb-config" (empty_dir "Memory") "/etc/ctdb" tag_ctdb_config

unfoldable pub ctdb_persistent_volume_and_mount : Planner → VolMount
ctdb_persistent_volume_and_mount _ =
    vol_mount "ctdb-persistent" (empty_dir "Memory") "/var/lib/ctdb/persistent" tag_ctdb_meta

unfoldable pub ctdb_volatile_volume_and_mount : Planner → VolMount
ctdb_volatile_volume_and_mount _ =
    vol_mount "ctdb-volatile" (empty_dir "Memory") "/var/lib/ctdb/volatile" tag_ctdb_meta

unfoldable pub ctdb_sockets_volume_and_mount : Planner → VolMount
ctdb_sockets_volume_and_mount _ =
    vol_mount "ctdb-sockets" (empty_dir "Memory") "/var/run/ctdb" tag_ctdb_meta

unfoldable pub ctdb_shared_state_volume_and_mount : Planner → String → VolMount
ctdb_shared_state_volume_and_mount _ pvc =
    vol_mount (pvc <> "-ctdb") (persistent_volume_claim pvc) "/var/lib/ctdb/shared" tag_ctdb_meta
