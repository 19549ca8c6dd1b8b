-- ===== src/Resources/Pods/Clustered.antt =====
-- internal/resources/pods.go: the pods of a clustered server, in each of the two security modes.
use samba_operator.Base.{String, ◌==◌, ◌!=◌, if◌then◌else◌, List, [], ◌∷◌, ◌++◌, Option}
use samba_operator.Base.Dict.{Dict}
use samba_operator.Base.Panics.{Run, returns, ◌>>=◌}
use samba_operator.Planner.Instance.{Planner}
use samba_operator.Planner.Properties.{security_mode, ad_mode}
use samba_operator.Planner.Misc.{dns_register, dns_register_never}
use samba_operator.Resources.Objects.{Container, EnvVar, PodSpec}
use samba_operator.Resources.Volumes.{VolKeeper, new_vol_keeper, add, extend}
use samba_operator.Resources.Volumes.Sources.{
  share_volume_and_mount, config_volume_and_mount, samba_state_volume_and_mount,
  wb_sockets_volume_and_mount, ctdb_config_volume_and_mount, ctdb_persistent_volume_and_mount,
  ctdb_volatile_volume_and_mount, ctdb_sockets_volume_and_mount, ctdb_shared_state_volume_and_mount,
}
use samba_operator.Resources.Pods.Env.{valued, join_env_paths, default_pod_env, ctdb_hostname_env}
use samba_operator.Resources.Pods.Containers.{
  build_winbindd_ctr, build_ctdb_daemon_ctr, build_ctdb_manage_nodes_ctr, build_init_ctr,
  build_ensure_share_ctr, build_must_join_ctr, build_ctdb_migrate_ctr, build_ctdb_set_node_ctr,
  build_ctdb_must_have_node_ctr, build_smbd_ctrs,
}
use samba_operator.Resources.Pods.Joins.{get_join_sources}
use samba_operator.Resources.Pods.Builders.{register_names, with_users, finish}

-- The volumes that both builders start with, and those of the pod's configuration and state.
unfoldable pub cluster_vols : Planner → String → String → VolKeeper
unfolding share_volume_and_mount config_volume_and_mount samba_state_volume_and_mount
    ctdb_config_volume_and_mount ctdb_persistent_volume_and_mount ctdb_volatile_volume_and_mount
    ctdb_sockets_volume_and_mount ctdb_shared_state_volume_and_mount
cluster_vols pl data_pvc state_pvc = extend new_vol_keeper (
    share_volume_and_mount pl data_pvc
    ∷ config_volume_and_mount pl
    ∷ samba_state_volume_and_mount pl
    ∷ ctdb_config_volume_and_mount pl
    ∷ ctdb_persistent_volume_and_mount pl
    ∷ ctdb_volatile_volume_and_mount pl
    ∷ ctdb_sockets_volume_and_mount pl
    ∷ ctdb_shared_state_volume_and_mount pl state_pvc
    ∷ [])

unfoldable pub state_vols : Planner → String → VolKeeper → VolKeeper
unfolding samba_state_volume_and_mount ctdb_shared_state_volume_and_mount
state_vols pl state_pvc cfg_vols =
    extend cfg_vols
      (samba_state_volume_and_mount pl ∷ ctdb_shared_state_volume_and_mount pl state_pvc ∷ [])

-- The first two init containers, of the pod's configuration volumes.
unfoldable pub first_inits :
    Planner → List EnvVar → String → String → VolKeeper → Run (List Container)
unfolding state_vols samba_state_volume_and_mount share_volume_and_mount build_init_ctr
    build_ensure_share_ctr
first_inits pl pod_env data_pvc state_pvc cfg_vols = do
  init ← build_init_ctr pl pod_env (state_vols pl state_pvc cfg_vols)
  ensure ←
      build_ensure_share_ctr pl pod_env (
        extend cfg_vols (samba_state_volume_and_mount pl ∷ share_volume_and_mount pl data_pvc ∷ []))
  returns (init ∷ ensure ∷ [])

-- The init containers of ctdb.
unfoldable pub ctdb_inits : Planner → List EnvVar → String → VolKeeper → Run (List Container)
unfolding samba_state_volume_and_mount ctdb_shared_state_volume_and_mount
    ctdb_config_volume_and_mount ctdb_persistent_volume_and_mount build_ctdb_migrate_ctr
    build_ctdb_set_node_ctr build_ctdb_must_have_node_ctr
ctdb_inits pl ctdb_env state_pvc cfg_vols = do
  let state_vol = samba_state_volume_and_mount pl
  let shared_vol = ctdb_shared_state_volume_and_mount pl state_pvc
  let config_vol = ctdb_config_volume_and_mount pl
  let init_vols = extend cfg_vols (state_vol ∷ shared_vol ∷ config_vol ∷ [])
  migrate ← build_ctdb_migrate_ctr pl ctdb_env (
      extend cfg_vols
        (state_vol ∷ shared_vol ∷ config_vol ∷ ctdb_persistent_volume_and_mount pl ∷ []))
  set_node ← build_ctdb_set_node_ctr pl ctdb_env init_vols
  have_node ← build_ctdb_must_have_node_ctr pl ctdb_env init_vols
  returns (migrate ∷ set_node ∷ have_node ∷ [])

-- The containers of ctdb.
unfoldable pub ctdb_ctrs : Planner → List EnvVar → String → VolKeeper → Run (List Container)
unfolding ctdb_config_volume_and_mount ctdb_persistent_volume_and_mount
    ctdb_volatile_volume_and_mount ctdb_sockets_volume_and_mount ctdb_shared_state_volume_and_mount
    build_ctdb_daemon_ctr build_ctdb_manage_nodes_ctr
ctdb_ctrs pl ctdb_env state_pvc cfg_vols = do
  let shared_vol = ctdb_shared_state_volume_and_mount pl state_pvc
  ctdbd ← build_ctdb_daemon_ctr pl ctdb_env (
      extend cfg_vols (
        ctdb_config_volume_and_mount pl
        ∷ ctdb_persistent_volume_and_mount pl
        ∷ ctdb_volatile_volume_and_mount pl
        ∷ ctdb_sockets_volume_and_mount pl
        ∷ shared_vol
        ∷ []))
  manage ← build_ctdb_manage_nodes_ctr pl ctdb_env (
      extend cfg_vols
        (ctdb_config_volume_and_mount pl ∷ ctdb_sockets_volume_and_mount pl ∷ shared_vol ∷ []))
  returns (ctdbd ∷ manage ∷ [])

-- The volumes of winbindd.
unfoldable pub winbind_vols : Planner → String → VolKeeper → VolKeeper
unfolding samba_state_volume_and_mount wb_sockets_volume_and_mount ctdb_config_volume_and_mount
    ctdb_persistent_volume_and_mount ctdb_volatile_volume_and_mount ctdb_sockets_volume_and_mount
    ctdb_shared_state_volume_and_mount
winbind_vols pl state_pvc cfg_vols = extend cfg_vols (
    samba_state_volume_and_mount pl
    ∷ wb_sockets_volume_and_mount pl
    ∷ ctdb_config_volume_and_mount pl
    ∷ ctdb_persistent_volume_and_mount pl
    ∷ ctdb_volatile_volume_and_mount pl
    ∷ ctdb_sockets_volume_and_mount pl
    ∷ ctdb_shared_state_volume_and_mount pl state_pvc
    ∷ [])

module _ (unmarshal : String → Option (Dict String)) where
  unfoldable pub build_clustered_user_pod_spec : Planner → String → String → Run PodSpec
  unfolding finish with_users cluster_vols config_volume_and_mount default_pod_env ctdb_hostname_env
      first_inits ctdb_inits ctdb_ctrs build_smbd_ctrs
  build_clustered_user_pod_spec pl data_pvc state_pvc = do
    let volumes = with_users pl (cluster_vols pl data_pvc state_pvc)
    let cfg_vols = with_users pl (add new_vol_keeper (config_volume_and_mount pl))
    let pod_env = default_pod_env pl
    let ctdb_env = pod_env ++ ctdb_hostname_env pl
    inits ← first_inits pl pod_env data_pvc state_pvc cfg_vols
    ctdb_init ← ctdb_inits pl ctdb_env state_pvc cfg_vols
    ctdb ← ctdb_ctrs pl ctdb_env state_pvc cfg_vols
    smbd ← build_smbd_ctrs pl pod_env volumes
    finish unmarshal pl volumes (inits ++ ctdb_init) (ctdb ++ smbd)

  unfoldable pub build_clustered_ad_pod_spec : Planner → String → String → Run PodSpec
  unfolding finish register_names cluster_vols config_volume_and_mount wb_sockets_volume_and_mount
      get_join_sources join_env_paths default_pod_env ctdb_hostname_env first_inits state_vols
      build_must_join_ctr ctdb_inits ctdb_ctrs winbind_vols build_winbindd_ctr build_smbd_ctrs
      dns_register
  build_clustered_ad_pod_spec pl data_pvc state_pvc = do
    let cfg_vols = add new_vol_keeper (config_volume_and_mount pl)
    jsrc ← get_join_sources pl
    let join_env = valued "SAMBACC_JOIN_FILES" (join_env_paths jsrc.paths) ∷ []
    let volumes =
        extend (add (cluster_vols pl data_pvc state_pvc) (wb_sockets_volume_and_mount pl))
          jsrc.volumes
    let pod_env = default_pod_env pl
    let ctdb_env = pod_env ++ ctdb_hostname_env pl
    inits ← first_inits pl pod_env data_pvc state_pvc cfg_vols
    join ← build_must_join_ctr pl join_env (extend (state_vols pl state_pvc cfg_vols) jsrc.volumes)
    ctdb_init ← ctdb_inits pl ctdb_env state_pvc cfg_vols
    ctdb ← ctdb_ctrs pl ctdb_env state_pvc cfg_vols
    let wb_vols = winbind_vols pl state_pvc cfg_vols
    winbindd ← build_winbindd_ctr pl pod_env wb_vols
    smbd ← build_smbd_ctrs pl pod_env volumes
    reg ← dns_register pl
    (all_vols, names) ← register_names pl pod_env volumes wb_vols (reg != dns_register_never)
    finish unmarshal pl all_vols (inits ++ join ∷ ctdb_init) (ctdb ++ winbindd ∷ smbd ++ names)

  unfoldable pub build_clustered_pod_spec : Planner → String → String → Run PodSpec
  unfolding build_clustered_ad_pod_spec build_clustered_user_pod_spec security_mode
  build_clustered_pod_spec pl data_pvc state_pvc =
      if security_mode pl == ad_mode
      then build_clustered_ad_pod_spec pl data_pvc state_pvc
      else build_clustered_user_pod_spec pl data_pvc state_pvc
