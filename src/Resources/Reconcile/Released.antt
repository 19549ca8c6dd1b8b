-- ===== src/Resources/Reconcile/Released.antt =====
-- internal/resources/smbshare.go: what each step of `Finalize` has read, where the next step follows.
use samba_operator.Base.{◌≡◌, refl, String, false, some, List, inl, inr, ◌⊎◌}
use samba_operator.Base.Panics.{Run, returns, panics}
use samba_operator.Api.Meta.{ObjectMeta, OwnerReference}
use samba_operator.Api.SmbShare.{SmbShare}
use samba_operator.Conf.{OperatorConfig}
use samba_operator.Planner.Properties.{instance_name}
use samba_operator.Resources.Outcome.{not_found, failed, Result, yields}
use samba_operator.Resources.Kube.{Api, Reply, got, refused}
use samba_operator.Resources.ConfigMaps.{minimal_planner}
use samba_operator.Resources.Transfer.{plan_transfer, leave}
use samba_operator.Resources.Transfer.Kept.{run_plan_kept}
use samba_operator.Resources.Manager.{transfer_ownership}
use samba_operator.Resources.Platform.{Platform}
use samba_operator.Resources.Getters.{
  object_key, found_or_nil, get_existing_pvc, get_existing_stateful_set, get_existing_deployment,
}
use samba_operator.Resources.Servers.Running.{Kept}
use samba_operator.Resources.Step.{Reads}
use samba_operator.Resources.Reconcile.{
  with_run, with_result, with_read, hand_over_found, hand_over_pvc, hand_over_stateful_set,
  hand_over_deployment, set_pvc_owners,
}
use samba_operator.Resources.Servers.{set_workload_owners}
use samba_operator.Resources.Reconcile.Steps.{unless-Reads}

module _ {W : Type 0} (p : Platform W) (w : W) where
  -- There is no such object, or it stays with those who own it.
  abbrev pub Left : {A : Type 0} → (A → ObjectMeta) → SmbShare → Reply A → Type 0
  Left {A} meta s reply =
      (reply ≡ refused not_found)
      ⊎ ((obj : A) × (reply ≡ got obj)
          × (plan_transfer p.runtime.group_of (p.client.shares.get w) (meta obj) s ≡ leave))

  module _ (cfg : OperatorConfig) where
    pub with_run-Reads :
        (Q : Type 0) (r : W × Run Result)
        → ((w' : W) (res : Result) → r ≡ (w', returns res) → yields res ≡ false → (w' ≡ w) × Q)
        → Reads w (Kept p w cfg {A = Unit} (λ u. Q)) (with_run cfg r)
    unfolding with_run
    with_run-Reads Q (w', panics) h = tt
    with_run-Reads Q (w', returns res) h =
        unless-Reads p w cfg (λ u. Q) w' res tt (λ goes. h w' res refl goes)

    module _ {A : Type 0} (api : Api W A) (meta : A → ObjectMeta)
        (set_owners : A → List OwnerReference → A) where
      found-Reads :
          (s : SmbShare) (obj : A)
          → Reads w
              (Kept p w cfg {A = Unit} (λ u. Left meta s (got obj)))
              (hand_over_found p api meta set_owners s (some obj) w cfg)
      unfolding hand_over_found with_result transfer_ownership
      found-Reads s obj =
          let plan = plan_transfer p.runtime.group_of (p.client.shares.get w) (meta obj) s in
          let t =
            transfer_ownership p.client p.runtime cfg p.codec api.update meta set_owners w obj s in
          unless-Reads p w cfg (λ u. Left meta s (got obj)) t.0 t.1 tt
            (λ goes.
              let (still, stays) = run_plan_kept api.update set_owners w obj plan goes in
              (still, inr (obj, refl, stays)))

      hand_over-Reads :
          (s : SmbShare) (reply : Reply A)
          → Reads w
              (Kept p w cfg {A = Unit} (λ u. Left meta s reply))
              (with_read (found_or_nil reply) (hand_over_found p api meta set_owners s) w cfg)
      unfolding with_read found_or_nil hand_over_found
      hand_over-Reads s (refused not_found) = (refl, (refl, inl refl))
      hand_over-Reads s (refused (failed e)) = refl
      hand_over-Reads s (got obj) = found-Reads s obj

    pub hand_over_pvc-Reads :
        (s : SmbShare) (name : String)
        → Reads w
            (Kept p w cfg {A = Unit}
              (λ u. Left (λ d. d.metadata) s (p.pvcs.get w (object_key s.metadata.namespace name))))
            (hand_over_pvc p s name w cfg)
    unfolding hand_over_pvc get_existing_pvc
    hand_over_pvc-Reads s name =
        hand_over-Reads p.pvcs (λ d. d.metadata) set_pvc_owners s
          (p.pvcs.get w (object_key s.metadata.namespace name))

    -- The name of the server's objects.
    abbrev pub server_name : SmbShare → String
    unfolding instance_name
    server_name s = instance_name (minimal_planner cfg s)

    pub hand_over_stateful_set-Reads :
        (s : SmbShare)
        → Reads w
            (Kept p w cfg {A = Unit} (λ u.
              Left
                (λ d. d.metadata)
                s
                (p.stateful_sets.get w (object_key s.metadata.namespace (server_name s)))))
            (hand_over_stateful_set p s w cfg)
    unfolding hand_over_stateful_set get_existing_stateful_set
    hand_over_stateful_set-Reads s =
        hand_over-Reads p.stateful_sets (λ d. d.metadata) set_workload_owners s
          (p.stateful_sets.get w (object_key s.metadata.namespace (server_name s)))

    pub hand_over_deployment-Reads :
        (s : SmbShare)
        → Reads w
            (Kept p w cfg {A = Unit} (λ u.
              Left
                (λ d. d.metadata)
                s
                (p.deployments.get w (object_key s.metadata.namespace (server_name s)))))
            (hand_over_deployment p s w cfg)
    unfolding hand_over_deployment get_existing_deployment
    hand_over_deployment-Reads s =
        hand_over-Reads p.deployments (λ d. d.metadata) set_workload_owners s
          (p.deployments.get w (object_key s.metadata.namespace (server_name s)))
