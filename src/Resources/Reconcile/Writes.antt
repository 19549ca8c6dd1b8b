-- ===== src/Resources/Reconcile/Writes.antt =====
-- internal/resources/smbshare.go: a reconciliation writes at most once.
use samba_operator.Base.{◌≡◌, refl, ◌⊎◌, inl, Bool, true, false, is_some, if◌then◌else◌}
use samba_operator.Api.Meta.{NamespacedName}
use samba_operator.Api.SmbShare.{SmbShare}
use samba_operator.Conf.{OperatorConfig}
use samba_operator.Planner.Instance.{Planner}
use samba_operator.Planner.Properties.{is_clustered}
use samba_operator.Resources.Outcome.{not_found, failed}
use samba_operator.Resources.Kube.{Reply, got, refused}
use samba_operator.Resources.Claims.{add_finalizer, share_finalizer}
use samba_operator.Resources.Claims.Writes.{add_finalizer-Changes}
use samba_operator.Resources.ServerGroup.{set_server_group}
use samba_operator.Resources.ServerGroup.Writes.{set_server_group-Changes}
use samba_operator.Resources.Backend.{settle_backend}
use samba_operator.Resources.Backend.Writes.{settle_backend-Backed}
use samba_operator.Resources.Sizes.{share_needs_pvc}
use samba_operator.Resources.Manager.{update_config_map}
use samba_operator.Resources.Manager.Writes.{update_config_map-Yielded}
use samba_operator.Resources.Platform.{Platform}
use samba_operator.Resources.Refusing.{Refusing}
use samba_operator.Resources.Step.{pass}
use samba_operator.Resources.Grants.{update_for_openshift}
use samba_operator.Resources.Grants.Writes.{update_for_openshift-Once}
use samba_operator.Resources.Servers.{
  update_pvc, update_clustered_state, update_non_clustered_state, update_smb_service,
  update_metrics_service,
}
use samba_operator.Resources.Servers.Writes.{
  update_pvc-Once, update_clustered_state-Once, update_non_clustered_state-Once,
  update_smb_service-Once, update_metrics_service-Once, update_metrics_service_monitor-Once,
}
use samba_operator.Resources.Once.{
  AtMost, Once, Ends, Once-next, Once-Ends, Ends-finished, change-Once,
}
use samba_operator.Resources.Written.{
  Written, share_updated, status_updated, map_created, map_updated,
}
use samba_operator.Resources.Reconcile.{
  with_planner, with_backend, server_steps, backed_steps, update_share, process_found,
  process_reply, process,
}
use samba_operator.Resources.Reconcile.StepWrites.{with_planner-Once, with_backend-Once}
use samba_operator.Resources.Reconcile.ReleaseWrites.{finalize-Ends}

module _ {W : Type 0} (p : Platform W) (w : W) (refusing : Refusing p) where
  server_either-Once :
      (b : Bool) (pl : Planner) (cfg : OperatorConfig)
      → Once
          (Written p)
          w
          ((if b then update_clustered_state p pl else update_non_clustered_state p pl) w cfg)
  server_either-Once true pl cfg = update_clustered_state-Once p w pl cfg
  server_either-Once false pl cfg = update_non_clustered_state-Once p w pl cfg

  server_steps-Once :
      (pl : Planner) (cfg : OperatorConfig) → Once (Written p) w (server_steps p pl w cfg)
  unfolding server_steps
  server_steps-Once pl cfg =
      Once-next (Written p) w _ _ (server_either-Once (is_clustered pl) pl cfg) (λ cfg a.
        Once-next (Written p) w (update_smb_service p pl w cfg) _
          (update_smb_service-Once p w pl cfg)
          (λ cfg b.
            Once-next (Written p) w (update_metrics_service p pl w cfg) _
              (update_metrics_service-Once p w refusing pl cfg)
              (λ cfg c. update_metrics_service_monitor-Once p w refusing pl cfg)))

  stored_either-Once :
      (b : Bool) (s : SmbShare) (cfg : OperatorConfig)
      → Once (Written p) w ((if b then update_pvc p s else pass s) w cfg)
  stored_either-Once true s cfg = update_pvc-Once p w s cfg
  stored_either-Once false s cfg = refl

  backed_steps-Once :
      (s : SmbShare) (planner : Planner) (cfg : OperatorConfig)
      → Once (Written p) w (backed_steps p s planner w cfg)
  unfolding backed_steps
  backed_steps-Once s planner cfg =
      Once-next (Written p) w _ _ (stored_either-Once (share_needs_pvc s) s cfg) (λ cfg stored.
        Once-next (Written p) w
          (with_backend cfg (settle_backend p.client w (record planner { smb_share = stored }))) _
          (with_backend-Once (Written p) w cfg _ (
            settle_backend-Backed (Written p) w p.client (λ s. share_updated w s)
              (record planner { smb_share = stored })))
          (λ cfg backed. server_steps-Once backed cfg))

  update_share-Once :
      (s : SmbShare) (cfg : OperatorConfig) → Once (Written p) w (update_share p s w cfg)
  unfolding update_share
  update_share-Once s cfg =
      change-Once (Written p) w (λ w. add_finalizer p.runtime p.client w s) _ cfg
        (add_finalizer-Changes (Written p) w p.runtime p.client (λ s. share_updated w s) s)
        (λ cfg kept.
          Once-next (Written p) w (update_for_openshift p kept w cfg) _
            (update_for_openshift-Once p refusing w kept cfg)
            (λ cfg typed.
              change-Once (Written p) w (λ w. set_server_group p.client w typed) _ cfg
                (set_server_group-Changes (Written p) p.client w (λ s. status_updated w s) typed)
                (λ cfg grouped.
                  Once-next (Written p) w
                    (with_planner cfg (update_config_map p.client p.runtime cfg p.codec w grouped))
                    _
                    (with_planner-Once (Written p) w cfg _ (
                      update_config_map-Yielded (Written p) p.client p.runtime cfg p.codec w
                        (λ cm. map_created w cm) (λ cm. map_updated w cm) grouped))
                    (λ cfg planner. backed_steps-Once grouped planner cfg))))

  found-Ends :
      (s : SmbShare) (dying held : Bool) (cfg : OperatorConfig)
      → Ends (Written p) w (process_found p s dying held w cfg)
  unfolding process_found
  found-Ends s true true cfg = finalize-Ends p w s cfg
  found-Ends s true false cfg = inl refl
  found-Ends s false held cfg =
      Once-Ends (Written p) w (update_share p s w cfg) (update_share-Once s cfg)

  reply-AtMost :
      (cfg : OperatorConfig) (r : Reply SmbShare) → AtMost (Written p) w (process_reply p w cfg r).0
  unfolding process_reply
  reply-AtMost cfg (refused not_found) = inl refl
  reply-AtMost cfg (refused (failed e)) = inl refl
  reply-AtMost cfg (got s) = Ends-finished (Written p) w _ (
      found-Ends s (is_some s.metadata.deletion_timestamp)
        (p.runtime.contains_finalizer s share_finalizer) cfg)

  -- Every reconciliation of a share, however it ends, leaves the cluster as it was or as a single one
  -- of the operator's writes left it. A creation that is refused because the object exists is taken
  -- to leave the cluster as it is.
  pub process_once :
      (cfg : OperatorConfig) (name : NamespacedName)
      → ((process p w cfg name).0 ≡ w) ⊎ Written p w (process p w cfg name).0
  unfolding process
  process_once cfg name = reply-AtMost cfg (p.client.shares.get w name)
