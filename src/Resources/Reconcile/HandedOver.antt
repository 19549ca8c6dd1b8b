-- ===== src/Resources/Reconcile/HandedOver.antt =====
-- internal/resources/smbshare.go: what the steps of `Finalize` have read where the next follows.
use samba_operator.Base.{◌≡◌, refl, subst, String, ◌==◌, Bool, true, false, if◌then◌else◌, All}
use samba_operator.Base.Panics.{Run, returns, panics}
use samba_operator.Api.SmbShare.{SmbShare}
use samba_operator.Conf.{OperatorConfig, cluster_type_open_shift}
use samba_operator.Planner.Properties.{is_clustered}
use samba_operator.Resources.Sizes.{pvc_name, shared_state_pvc_name, share_needs_pvc}
use samba_operator.Resources.ConfigMaps.{minimal_planner}
use samba_operator.Resources.OpenShift.{all_grants, finalize_for_openshift}
use samba_operator.Resources.OpenShift.Unread.{Unread, finalize_for_openshift-Unread}
use samba_operator.Resources.Platform.{Platform, grants_of}
use samba_operator.Resources.Getters.{object_key}
use samba_operator.Resources.Grants.{cluster_typed}
use samba_operator.Resources.Servers.Running.{Kept}
use samba_operator.Resources.Step.{Reads, Reads-kept, Reads-weaken, pass}
use samba_operator.Resources.Reconcile.{
  with_result, hand_over_deployment, hand_over_clustered, finalize_server_resources, named_pvc,
  finalize_data_pvc, openshift_finalized,
}
use samba_operator.Resources.Reconcile.Steps.{unless-Reads}
use samba_operator.Resources.Reconcile.Released.{
  Left, server_name, hand_over_pvc-Reads, hand_over_stateful_set-Reads, hand_over_deployment-Reads,
}

module _ {W : Type 0} (p : Platform W) (w : W) where
  -- What runs the server stays with those who own it.
  pub record ServerLeft (cfg : OperatorConfig) (s : SmbShare) : Type 0 where
    pub clustered :
        is_clustered (minimal_planner cfg s) ≡ true
        → Left p w
            (λ d. d.metadata)
            s
            (p.stateful_sets.get w (object_key s.metadata.namespace (server_name p w cfg s)))
          × Left p w
              (λ d. d.metadata)
              s
              (p.pvcs.get w
                (object_key s.metadata.namespace (shared_state_pvc_name (minimal_planner cfg s))))
    pub standing :
        is_clustered (minimal_planner cfg s) ≡ false
        → Left p w
            (λ d. d.metadata)
            s
            (p.deployments.get w (object_key s.metadata.namespace (server_name p w cfg s)))

  -- The volume claim stays with those who own it.
  abbrev pub PvcLeft : SmbShare → Type 0
  PvcLeft s =
      (name : String) × (pvc_name s ≡ returns name)
      × Left p w (λ d. d.metadata) s (p.pvcs.get w (object_key s.metadata.namespace name))

  module _ (cfg : OperatorConfig) where
    hand_over_clustered-Reads :
        (s : SmbShare)
        → Reads w
            (Kept p w cfg {A = Unit} (λ u.
              Left p w
                (λ d. d.metadata)
                s
                (p.stateful_sets.get w (object_key s.metadata.namespace (server_name p w cfg s)))
              × Left p w
                  (λ d. d.metadata)
                  s
                  (p.pvcs.get w (
                    object_key s.metadata.namespace
                      (shared_state_pvc_name (minimal_planner cfg s))))))
            (hand_over_clustered p s w cfg)
    unfolding hand_over_clustered
    hand_over_clustered-Reads s =
        Reads-kept w cfg _ _ _ _ (hand_over_stateful_set-Reads p w cfg s) (λ u set.
          Reads-weaken _ _ w _ (λ c v (same, pvc). (same, (set, pvc)))
            (hand_over_pvc-Reads p w cfg s (shared_state_pvc_name (minimal_planner cfg s))))

    server_by :
        (s : SmbShare) (b : Bool)
        → is_clustered (minimal_planner cfg s) ≡ b
        → Reads w
            (Kept p w cfg {A = Unit} (λ u. ServerLeft cfg s))
            (if b then hand_over_clustered p s w cfg else hand_over_deployment p s w cfg)
    server_by s true e =
        Reads-weaken _ _ w _
          (λ c u (same, left). (same, record { clustered = λ h. left; standing = λ h. cc (h, e) }))
          (hand_over_clustered-Reads s)
    server_by s false e =
        Reads-weaken _ _ w _
          (λ c u (same, left). (same, record { clustered = λ h. cc (h, e); standing = λ h. left }))
          (hand_over_deployment-Reads p w cfg s)

    pub finalize_server_resources-Reads :
        (s : SmbShare)
        → Reads w (Kept p w cfg (λ u. ServerLeft cfg s)) (finalize_server_resources p s w cfg)
    unfolding finalize_server_resources
    finalize_server_resources-Reads s = server_by s (is_clustered (minimal_planner cfg s)) refl

    named_pvc-Reads :
        (s : SmbShare) (r : Run String)
        → pvc_name s ≡ r
        → Reads w (Kept p w cfg (λ u. PvcLeft s)) (named_pvc p s r w cfg)
    unfolding named_pvc
    named_pvc-Reads s panics e = tt
    named_pvc-Reads s (returns name) e =
        Reads-weaken _ _ w _ (λ c u (same, left). (same, (name, e, left)))
          (hand_over_pvc-Reads p w cfg s name)

    pub storage_by :
        (s : SmbShare) (b : Bool)
        → share_needs_pvc s ≡ b
        → Reads w
            (Kept p w cfg (λ u. b ≡ true → PvcLeft s))
            ((if b then finalize_data_pvc p s else pass tt) w cfg)
    unfolding finalize_data_pvc
    storage_by s false e = (refl, (refl, λ h. cc h))
    storage_by s true e =
        Reads-weaken _ _ w _ (λ c u (same, left). (same, λ h. left))
          (named_pvc-Reads s (pvc_name s) refl)

    pub openshift_finalized-Reads :
        (s : SmbShare)
        → Reads w
            (λ c u.
              (c ≡ cluster_typed p w cfg)
              × ((c.cluster_type == cluster_type_open_shift) ≡ true
                  → All (Unread (grants_of p) s w) (all_grants (grants_of p))))
            (openshift_finalized p s w cfg)
    unfolding openshift_finalized with_result
    openshift_finalized-Reads s =
        let cfg' = cluster_typed p w cfg in
        let r = finalize_for_openshift (grants_of p) w cfg' s in
        Reads-weaken _ _ w _
          (λ c u (same, unread). (
            same,
            λ h. unread (subst (λ d. (d.cluster_type == cluster_type_open_shift) ≡ true) same h),
          ))
          (unless-Reads p w cfg'
            (λ u.
              (cfg'.cluster_type == cluster_type_open_shift) ≡ true
              → All (Unread (grants_of p) s w) (all_grants (grants_of p)))
            r.0 r.1 tt (λ goes. finalize_for_openshift-Unread (grants_of p) s w cfg' goes))
