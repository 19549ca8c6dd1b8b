-- ===== src/Resources/Pods/Containers.antt =====
-- internal/resources/pods.go: the containers. Each builder first asks its keeper for the volumes,
-- which panics where they are not valid.
use samba_operator.Base.{String, if◌then◌else◌, some, none, List, [], ◌∷◌}
use samba_operator.Base.Int.{int32}
use samba_operator.Base.Panics.{Run, returns, ◌>>=◌}
use samba_operator.Planner.Instance.{Planner}
use samba_operator.Planner.Args
use samba_operator.Resources.Objects.{EnvVar, tcp_socket, exec, VolumeMount, Container}
use samba_operator.Resources.Volumes.{VolKeeper, all, get_mounts, exclude, tag_data}
use samba_operator.Resources.Metrics.{build_smb_metrics_container, with_metrics_exporter}
use samba_operator.Resources.Pods.Env.{image_pull_policy, ctr_priv_security_context, meta_pod_env}

-- `mounts := getMounts(vols.all())`, and what is built with the mounts.
unfoldable pub mounting : VolKeeper → (List VolumeMount → Container) → Run Container
unfolding all
mounting vols build = do vs ← all vols; returns (build (get_mounts vs))

-- A container of the samba image with a name, arguments and an environment, and no more.
abbrev samba_container : Planner → String → List String → List EnvVar → List VolumeMount → Container
samba_container pl name args env mounts = record {
  image = pl.global_config.smbd_container_image;
  image_pull_policy = image_pull_policy pl;
  name = name;
  command = [];
  args = args;
  env = env;
  ports = [];
  volume_mounts = mounts;
  readiness_probe = none;
  liveness_probe = none;
  security_context = none;
}

unfoldable pub build_smbd_ctr : Planner → List EnvVar → VolKeeper → Run Container
unfolding mounting image_pull_policy int32 Args.run_args
build_smbd_ctr pl env vols =
    let portnum = pl.global_config.smbd_port in
    mounting vols λ mounts.
      record (samba_container pl pl.global_config.smbd_container_name (Args.run_args pl "smbd") env
        mounts) {
          command = "samba-container" ∷ [];
          ports = record { container_port = int32 portnum; name = "smb" } ∷ [];
          readiness_probe = some (tcp_socket (int32 portnum));
          liveness_probe = some (tcp_socket (int32 portnum));
          security_context = some ctr_priv_security_context;
        }

unfoldable pub build_smbd_metrics_ctr : Planner → List EnvVar → VolKeeper → Run Container
unfolding mounting build_smb_metrics_container
build_smbd_metrics_ctr pl env vols =
    mounting vols (build_smb_metrics_container pl.global_config.smbd_metrics_container_image env)

unfoldable pub build_winbindd_ctr : Planner → List EnvVar → VolKeeper → Run Container
unfolding mounting image_pull_policy Args.run_args
build_winbindd_ctr pl env vols = mounting vols λ mounts.
    record (samba_container pl pl.global_config.winbind_container_name (Args.run_args pl "winbindd")
      env mounts) { liveness_probe = some (exec ("samba-container" ∷ "check" ∷ "winbind" ∷ [])) }

unfoldable pub build_ctdb_daemon_ctr : Planner → List EnvVar → VolKeeper → Run Container
unfolding mounting image_pull_policy
build_ctdb_daemon_ctr pl env vols = mounting vols λ mounts.
    record (samba_container pl "ctdb" Args.ctdb_daemon env mounts) {
      readiness_probe = some (exec Args.ctdb_node_status);
    }

unfoldable pub build_ctdb_manage_nodes_ctr : Planner → List EnvVar → VolKeeper → Run Container
unfolding mounting image_pull_policy
build_ctdb_manage_nodes_ctr pl env vols =
    mounting vols λ mounts. samba_container pl "ctdb-manage-nodes" Args.ctdb_manage_nodes env mounts

unfoldable pub build_dns_reg_ctr : Planner → List EnvVar → VolKeeper → Run Container
unfolding all image_pull_policy Args.dns_register_args
build_dns_reg_ctr pl env vols = do
  vs ← all vols
  args ← Args.dns_register_args pl
  returns (samba_container pl "dns-register" args env (get_mounts vs))

unfoldable pub build_svc_watch_ctr : Planner → List EnvVar → VolKeeper → Run Container
unfolding mounting image_pull_policy
build_svc_watch_ctr pl env vols = mounting vols λ mounts.
    record (samba_container pl "svc-watch" [] env mounts) {
      image = pl.global_config.svc_watch_container_image;
      security_context = some ctr_priv_security_context;
    }

unfoldable pub build_init_ctr : Planner → List EnvVar → VolKeeper → Run Container
unfolding mounting image_pull_policy Args.initializer
build_init_ctr pl env vols =
    mounting vols λ mounts. samba_container pl "init" (Args.initializer pl "init") env mounts

unfoldable pub build_ensure_share_ctr : Planner → List EnvVar → VolKeeper → Run Container
unfolding mounting image_pull_policy
build_ensure_share_ctr pl env vols = mounting vols λ mounts.
    record (samba_container pl "ensure-share-paths" Args.ensure_share_paths env mounts) {
      security_context = some ctr_priv_security_context;
    }

unfoldable pub build_must_join_ctr : Planner → List EnvVar → VolKeeper → Run Container
unfolding mounting image_pull_policy Args.initializer
build_must_join_ctr pl env vols =
    mounting vols
      λ mounts. samba_container pl "must-join" (Args.initializer pl "must-join") env mounts

unfoldable pub build_ctdb_migrate_ctr : Planner → List EnvVar → VolKeeper → Run Container
unfolding mounting image_pull_policy
build_ctdb_migrate_ctr pl env vols =
    mounting vols λ mounts. samba_container pl "ctdb-migrate" Args.ctdb_migrate env mounts

unfoldable pub build_ctdb_set_node_ctr : Planner → List EnvVar → VolKeeper → Run Container
unfolding mounting image_pull_policy
build_ctdb_set_node_ctr pl env vols =
    mounting vols λ mounts. samba_container pl "ctdb-set-node" Args.ctdb_set_node env mounts

unfoldable pub build_ctdb_must_have_node_ctr : Planner → List EnvVar → VolKeeper → Run Container
unfolding mounting image_pull_policy
build_ctdb_must_have_node_ctr pl env vols =
    mounting vols
      λ mounts. samba_container pl "ctdb-must-have-node" Args.ctdb_must_have_node env mounts

unfoldable pub build_update_config_watch_ctr : Planner → List EnvVar → VolKeeper → Run Container
unfolding mounting image_pull_policy
build_update_config_watch_ctr pl env vols = mounting vols λ mounts.
    record (samba_container pl "watch-update-config" Args.update_config_watch env mounts) {
      image_pull_policy = "";
    }

unfoldable pub metrics_ctrs : Planner → VolKeeper → Run (List Container)
unfolding build_smbd_metrics_ctr
metrics_ctrs pl vols = do c ← build_smbd_metrics_ctr pl meta_pod_env vols; returns (c ∷ [])

unfoldable pub build_smbd_ctrs : Planner → List EnvVar → VolKeeper → Run (List Container)
unfolding build_smbd_ctr exclude build_update_config_watch_ctr with_metrics_exporter metrics_ctrs
build_smbd_ctrs pl env vols = do
  smbd ← build_smbd_ctr pl env vols
  watch ← build_update_config_watch_ctr pl env vols
  metrics ←
      if with_metrics_exporter pl.global_config
      then metrics_ctrs pl (exclude vols tag_data)
      else returns []
  returns (smbd ∷ watch ∷ metrics)
