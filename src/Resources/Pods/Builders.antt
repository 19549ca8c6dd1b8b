-- ===== src/Resources/Pods/Builders.antt =====
-- internal/resources/pods.go: the pods of a server that is not clustered, in each of the two security
-- modes.
use samba_operator.Base.{
  String, Bool, true, false, ◌==◌, ◌!=◌, if◌then◌else◌, List, [], ◌∷◌, ◌++◌, Option,
}
use samba_operator.Base.Dict.{Dict}
use samba_operator.Base.Panics.{Run, returns, ◌>>=◌}
use samba_operator.Planner.Instance.{Planner}
use samba_operator.Planner.Properties.{security_mode, ad_mode}
use samba_operator.Planner.Misc.{user_security_source, dns_register, dns_register_never}
use samba_operator.Planner.Selector.{node_selector}
use samba_operator.Planner.Paths.{service_watch_state_dir}
use samba_operator.Resources.Objects.{Container, EnvVar, PodSpec}
use samba_operator.Resources.Volumes.{VolKeeper, new_vol_keeper, add, extend, all, get_volumes}
use samba_operator.Resources.Volumes.Sources.{
  share_volume_and_mount, config_volume_and_mount, user_config_volume_and_mount,
  samba_state_volume_and_mount, os_run_volume_and_mount, wb_sockets_volume_and_mount,
  svc_watch_volume_and_mount,
}
use samba_operator.Resources.Pods.Env.{
  valued, join_env_paths, svc_watch_env, default_pod_env, default_pod_spec,
}
use samba_operator.Resources.Pods.Containers.{
  build_winbindd_ctr, build_dns_reg_ctr, build_svc_watch_ctr, build_init_ctr,
  build_ensure_share_ctr, build_must_join_ctr, build_smbd_ctrs,
}
use samba_operator.Resources.Pods.Joins.{get_join_sources}

-- The two containers that register the server's names, where the planner asks for them, and the
-- volumes of the pod with the one that they share.
unfoldable pub register_names :
    Planner → List EnvVar → VolKeeper → VolKeeper → Bool → Run (VolKeeper × List Container)
unfolding svc_watch_volume_and_mount svc_watch_env build_svc_watch_ctr build_dns_reg_ctr
register_names pl pod_env volumes server_vols false = returns (volumes, [])
register_names pl pod_env volumes server_vols true = do
  let watch_vol = svc_watch_volume_and_mount service_watch_state_dir
  watch ← build_svc_watch_ctr pl (svc_watch_env pl) (add new_vol_keeper watch_vol)
  dns ← build_dns_reg_ctr pl pod_env (add server_vols watch_vol)
  returns (add volumes watch_vol, watch ∷ dns ∷ [])

-- The volume with the users' configuration, where there is one.
unfoldable pub with_users : Planner → VolKeeper → VolKeeper
unfolding user_config_volume_and_mount user_security_source
with_users pl vols =
    if (user_security_source pl).configured
    then add vols (user_config_volume_and_mount pl)
    else vols

module _ (unmarshal : String → Option (Dict String)) where
  -- What the builders end with. An error of the selector is ignored.
  unfoldable pub finish : Planner → VolKeeper → List Container → List Container → Run PodSpec
  unfolding default_pod_spec node_selector all
  finish pl volumes inits containers = do
    vs ← all volumes
    returns (record (default_pod_spec pl) {
      volumes = get_volumes vs;
      init_containers = inits;
      containers = containers;
      node_selector = (node_selector unmarshal pl).0;
    })

  unfoldable pub build_ad_pod_spec : Planner → String → Run PodSpec
  unfolding finish register_names config_volume_and_mount samba_state_volume_and_mount
      wb_sockets_volume_and_mount share_volume_and_mount get_join_sources default_pod_env
      join_env_paths build_smbd_ctrs build_winbindd_ctr dns_register build_init_ctr
      build_ensure_share_ctr build_must_join_ctr
  build_ad_pod_spec pl pvc = do
    let init_vols =
        add (add new_vol_keeper (config_volume_and_mount pl)) (samba_state_volume_and_mount pl)
    let server_vols = add init_vols (wb_sockets_volume_and_mount pl)
    let smbd_vols = add server_vols (share_volume_and_mount pl pvc)
    jsrc ← get_join_sources pl
    let pod_env = default_pod_env pl
    let join_env = pod_env ++ valued "SAMBACC_JOIN_FILES" (join_env_paths jsrc.paths) ∷ []
    smbd ← build_smbd_ctrs pl pod_env smbd_vols
    winbindd ← build_winbindd_ctr pl pod_env server_vols
    reg ← dns_register pl
    (volumes, names) ←
        register_names pl pod_env (extend smbd_vols jsrc.volumes) server_vols
          (reg != dns_register_never)
    init ← build_init_ctr pl pod_env init_vols
    ensure ← build_ensure_share_ctr pl pod_env smbd_vols
    join ← build_must_join_ctr pl join_env (extend init_vols jsrc.volumes)
    finish pl volumes (init ∷ ensure ∷ join ∷ []) (smbd ++ winbindd ∷ names)

  unfoldable pub build_user_pod_spec : Planner → String → Run PodSpec
  unfolding finish with_users config_volume_and_mount samba_state_volume_and_mount
      os_run_volume_and_mount share_volume_and_mount default_pod_env build_smbd_ctrs
      build_ensure_share_ctr
  build_user_pod_spec pl pvc = do
    let share_vols = add new_vol_keeper (share_volume_and_mount pl pvc)
    let early_vols =
        add (add share_vols (samba_state_volume_and_mount pl)) (config_volume_and_mount pl)
    let pod_env = default_pod_env pl
    ensure ← build_ensure_share_ctr pl pod_env early_vols
    let volumes = with_users pl (add early_vols (os_run_volume_and_mount pl))
    smbd ← build_smbd_ctrs pl pod_env volumes
    finish pl volumes (ensure ∷ []) smbd

  unfoldable pub build_pod_spec : Planner → String → Run PodSpec
  unfolding build_ad_pod_spec build_user_pod_spec security_mode
  build_pod_spec pl pvc =
      if security_mode pl == ad_mode then build_ad_pod_spec pl pvc else build_user_pod_spec pl pvc
