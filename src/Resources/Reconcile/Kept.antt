-- ===== src/Resources/Reconcile/Kept.antt =====
-- internal/resources/smbshare.go: `Update` is done with a share exactly where all is in place.
use samba_operator.Base.{◌≡◌, refl, sym, ap, ◌∙◌, ◌↔◌, Bool, true, false, none, if◌then◌else◌}
use samba_operator.Base.Panics.{returns}
use samba_operator.Api.SmbShare.{SmbShare}
use samba_operator.Conf.{OperatorConfig}
use samba_operator.Planner.Instance.{Planner}
use samba_operator.Planner.Properties.{is_clustered}
use samba_operator.Resources.Outcome.{done}
use samba_operator.Resources.Claims.{add_finalizer}
use samba_operator.Resources.ServerGroup.{keep, plan_group, set_server_group}
use samba_operator.Resources.Backend.{backend_of, wanted_backend}
use samba_operator.Resources.Backend.Recorded.{settle_backend_valid}
use samba_operator.Resources.Sizes.{share_needs_pvc}
use samba_operator.Resources.Manager.{update_config_map}
use samba_operator.Resources.Manager.Proceeds.{update_config_map_kept}
use samba_operator.Resources.Platform.{Platform}
use samba_operator.Resources.Refusing.{Refusing}
use samba_operator.Resources.Step.{
  go, next, finished, pass, after_change, after_attempt, unless_yields,
}
use samba_operator.Resources.Grants.Kept.{update_for_openshift_kept}
use samba_operator.Resources.Monitoring.Kept.{
  get_or_create_metrics_service_kept, get_or_create_metrics_service_monitor_kept,
}
use samba_operator.Resources.Servers.{
  update_pvc, update_clustered_state, update_non_clustered_state, update_metrics_service,
  update_metrics_service_monitor,
}
use samba_operator.Resources.Servers.Kept.{
  update_non_clustered_state_kept, update_clustered_state_kept, update_smb_service_kept,
  update_pvc_kept,
}
use samba_operator.Resources.Reconcile.{
  with_planner, with_backend, server_steps, backed_steps, update_share,
}
use samba_operator.Resources.Reconcile.Running.{Running}
use samba_operator.Resources.Reconcile.InPlace.{HasStorage, InPlace, update_share-InPlace}

module _ {W : Type 0} (p : Platform W) (refusing : Refusing p) (w : W) where
  state_kept :
      (cfg : OperatorConfig) (pl : Planner) (b : Bool)
      → is_clustered pl ≡ b
      → Running p refusing w cfg pl
      → (if b then update_clustered_state p pl else update_non_clustered_state p pl) w cfg
        ≡ go w cfg tt
  state_kept cfg pl true e r = update_clustered_state_kept p cfg w pl (r.clustered e)
  state_kept cfg pl false e r = update_non_clustered_state_kept p cfg w pl (r.standing e)

  metrics_kept :
      (cfg : OperatorConfig) (pl : Planner)
      → Running p refusing w cfg pl
      → update_metrics_service p pl w cfg ≡ go w cfg tt
  unfolding update_metrics_service after_attempt
  metrics_kept cfg pl r =
      let (o, made) =
        get_or_create_metrics_service_kept p w cfg pl pl.smb_share.metadata.namespace
          r.watched.service in
      rw made refl

  monitor_kept :
      (cfg : OperatorConfig) (pl : Planner)
      → Running p refusing w cfg pl
      → update_metrics_service_monitor p pl w cfg ≡ go w cfg tt
  unfolding update_metrics_service_monitor after_attempt
  monitor_kept cfg pl r =
      let (o, made) =
        get_or_create_metrics_service_monitor_kept p w cfg pl pl.smb_share.metadata.namespace
          r.watched.monitor in
      rw made refl

  server_kept :
      (cfg : OperatorConfig) (pl : Planner)
      → Running p refusing w cfg pl
      → server_steps p pl w cfg ≡ go w cfg tt
  unfolding server_steps
  server_kept cfg pl r =
      rw
        (
          state_kept cfg pl (is_clustered pl) refl r,
          update_smb_service_kept p cfg w pl r.served,
          metrics_kept cfg pl r,
        )
        (monitor_kept cfg pl r)

  storage_kept :
      (cfg : OperatorConfig) (s s' : SmbShare) (b : Bool)
      → share_needs_pvc s ≡ b
      → HasStorage p refusing w s s'
      → (if b then update_pvc p s else pass s) w cfg ≡ go w cfg s'
  storage_kept cfg s s' true e (has, same) = update_pvc_kept p cfg w s s' (has e)
  storage_kept cfg s s' false e (has, same) = ap (λ t. go w cfg t) (sym (same e))

  backed_kept :
      (cfg : OperatorConfig) (s s' : SmbShare) (planner : Planner)
      → HasStorage p refusing w s s'
      → backend_of s' ≡ wanted_backend (record planner { smb_share = s' })
      → Running p refusing w cfg (record planner { smb_share = s' })
      → backed_steps p s planner w cfg ≡ go w cfg tt
  unfolding backed_steps with_backend unless_yields
  backed_kept cfg s s' planner storage recorded running =
      let pl = record planner { smb_share = s' } in
      rw
        (
          storage_kept cfg s s' (share_needs_pvc s) refl storage,
          settle_backend_valid p.client w pl recorded,
        )
        (server_kept cfg pl running)

  group_kept :
      (s : SmbShare) → plan_group s ≡ keep → set_server_group p.client w s ≡ (w, s, false, none)
  unfolding set_server_group
  group_kept s h = rw (h, set_server_group) refl

  -- What follows the steps for OpenShift.
  grouped_kept :
      (cfg cfg' : OperatorConfig) (s : SmbShare) (i : InPlace p refusing w s cfg cfg')
      → next (after_change cfg' (set_server_group p.client w i.shared)) (λ grouped w cfg.
        next
          (with_planner cfg (update_config_map p.client p.runtime cfg p.codec w grouped))
          (λ planner. backed_steps p grouped planner))
        ≡ go w cfg' tt
  unfolding after_change with_planner unless_yields
  grouped_kept cfg cfg' s i = rw (group_kept i.shared i.grouped) (
      rw (update_config_map_kept p.client p.runtime cfg' p.codec w i.shared i.planner i.proceeds)
        (backed_kept cfg' i.shared i.stored i.planner i.storage i.recorded i.running))

  -- Where all is in place, `Update` goes to its end.
  update_kept :
      (cfg cfg' : OperatorConfig) (s : SmbShare)
      → InPlace p refusing w s cfg cfg'
      → update_share p s w cfg ≡ go w cfg' tt
  unfolding update_share after_change add_finalizer
  update_kept cfg cfg' s i =
      rw (i.held, update_for_openshift_kept p w s i.shared cfg cfg' i.for_open_shift)
        (grouped_kept cfg cfg' s i)

  -- `Update` is done with a share exactly where all that the share needs is in place, and then
  -- nothing was written: our finalizer, the group, on OpenShift the namespace's labels and the
  -- grants, the config map with what the resources ask for, the volume claim, the recorded backend,
  -- the deployment or the stateful set with its state claim, the service and, on OpenShift, what
  -- metrics need. A creation that is refused because the object exists is taken to leave the
  -- cluster as it is.
  pub update_share_iff :
      (w' : W) (cfg cfg' : OperatorConfig) (s : SmbShare)
      → (finished (update_share p s w cfg) ≡ (w', cfg', returns done))
        ↔ ((w' ≡ w) × InPlace p refusing w s cfg cfg')
  update_share_iff w' cfg cfg' s = (
    update_share-InPlace p refusing w w' cfg cfg' s,
    λ (same, placed).
        ap finished (update_kept cfg cfg' s placed) ∙ ap (λ v. (v, cfg', returns done)) (sym same),
  )
