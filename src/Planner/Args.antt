-- ===== src/Planner/Args.antt =====
-- internal/planner/args.go: the arguments of the samba containers.
use samba_operator.Base.{String, ◌==◌, List, [], ◌∷◌, ◌++◌, if◌then◌else◌}
use samba_operator.Base.Panics.{Run, returns, ◌>>=◌}
use samba_operator.Planner.Instance.{Planner}
use samba_operator.Planner.Properties.{ad_mode, security_mode, is_clustered}
use samba_operator.Planner.Misc.{dns_register, dns_register_cluster_ip}
use samba_operator.Planner.Paths.{service_watch_json}

unfoldable pub initializer : Planner → String → List String
unfolding is_clustered
initializer pl cmd =
    (if is_clustered pl then "--skip-if-file=/var/lib/ctdb/shared/nodes" ∷ [] else []) ++ cmd ∷ []

unfoldable pub dns_register_args : Planner → Run (List String)
unfolding dns_register service_watch_json
dns_register_args pl = do
  reg ← dns_register pl
  returns (
      "dns-register"
        ∷ "--watch"
        ∷ (if reg == dns_register_cluster_ip then "--target=internal" ∷ [] else [])
      ++ service_watch_json ∷ [])

unfoldable pub run_args : Planner → String → List String
unfolding is_clustered security_mode
run_args pl name =
    "run"
    ∷ name
    ∷ (if is_clustered pl
        then if security_mode pl == ad_mode
          then "--setup=nsswitch" ∷ "--setup=smb_ctdb" ∷ []
          else if name == "smbd"
          then "--setup=users" ∷ "--setup=smb_ctdb" ∷ []
          else []
        else [])

abbrev pub ctdb_daemon : List String
ctdb_daemon =
    "run" ∷ "ctdbd" ∷ "--setup=smb_ctdb" ∷ "--setup=ctdb_config" ∷ "--setup=ctdb_etc"
    ∷ "--setup=ctdb_nodes" ∷ []

abbrev pub ctdb_manage_nodes : List String
ctdb_manage_nodes =
    "ctdb-manage-nodes" ∷ "--hostname=$(HOSTNAME)"
    ∷ "--take-node-number-from-hostname=after-last-dash" ∷ []

abbrev pub ctdb_migrate : List String
ctdb_migrate = "ctdb-migrate" ∷ "--dest-dir=/var/lib/ctdb/persistent" ∷ []

abbrev pub ctdb_set_node : List String
ctdb_set_node =
    "ctdb-set-node" ∷ "--hostname=$(HOSTNAME)" ∷ "--take-node-number-from-hostname=after-last-dash"
    ∷ []

abbrev pub ctdb_must_have_node : List String
ctdb_must_have_node =
    "ctdb-must-have-node" ∷ "--hostname=$(HOSTNAME)"
    ∷ "--take-node-number-from-hostname=after-last-dash" ∷ []

abbrev pub ctdb_node_status : List String
ctdb_node_status = "samba-container" ∷ "check" ∷ "ctdb-nodestatus" ∷ []

abbrev pub ensure_share_paths : List String
ensure_share_paths = "ensure-share-paths" ∷ []

abbrev pub update_config_watch : List String
update_config_watch = "update-config" ∷ "--watch" ∷ []
