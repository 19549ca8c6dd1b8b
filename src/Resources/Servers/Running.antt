-- ===== src/Resources/Servers/Running.antt =====
-- What the steps for a server have read, where they go on.
use samba_operator.Base.{
  ◌≡◌, refl, ap, subst, ◌∙◌, Bool, true, false, none, some, List, Bool-cases, inl, inr, arith, ◌||◌,
}
use samba_operator.Base.Int.{ℤ, pos, negsuc, ltb_int}
use samba_operator.Base.Panics.{Run, returns, panics}
use samba_operator.Api.Meta.{OwnerReference}
use samba_operator.Api.SmbShare.{SmbShare}
use samba_operator.Conf.{OperatorConfig}
use samba_operator.Planner.Instance.{Planner}
use samba_operator.Planner.Properties.{instance_name}
use samba_operator.Planner.Misc.{may_cluster}
use samba_operator.Resources.Kube.{got}
use samba_operator.Resources.Objects.{Workload, Service, PersistentVolumeClaim}
use samba_operator.Resources.Claims.{claimed}
use samba_operator.Resources.Sizes.{update_stateful_set_size, update_deployment_size}
use samba_operator.Resources.Platform.{Platform}
use samba_operator.Resources.Getters.{object_key}
use samba_operator.Resources.Getters.Found.{
  get_or_create_deployment-Reads, get_or_create_stateful_set-Reads, get_or_create_service-Reads,
  get_or_create_state_pvc-Reads, get_or_create_pvc-Reads, HasPvc, HasState,
}
use samba_operator.Resources.Servers.{
  workload_owners, set_workload_owners, service_owners, set_service_owners, with_pvc_name,
  wanted_size, update_pvc, sized_to, clustered_steps, update_clustered_state,
  update_non_clustered_state, update_smb_service,
}
use samba_operator.Resources.Servers.Reads.{claim-Reads, with_size-Reads}
use samba_operator.Resources.Step.{
  pass, Reads, Reads-kept, after_attempt-kept, Reads-go, Reads-weaken, after_change, after_attempt,
}

-- Whether a size is other than one.
abbrev not_one : ℤ → Bool
not_one r = ltb_int r (pos 1) || ltb_int (pos 1) r

one_of_not_one : (r : ℤ) → not_one r ≡ false → r ≡ pos 1
one_of_not_one (pos n) h = ground arith
one_of_not_one (negsuc n) h = cc

module _ {W : Type 0} (p : Platform W) (w : W) where
  -- The deployment of the instance exists, the share is among its owners, and it has one replica.
  pub record Standing (pl : Planner) : Type 0 where
    pub deployment : Workload
    pub exists :
        p.deployments.get w (object_key pl.smb_share.metadata.namespace (instance_name pl))
        ≡ got deployment
    pub owned : claimed p.runtime.group_of pl.smb_share (workload_owners deployment) ≡ some none
    pub one : deployment.replicas ≡ some (pos 1)

  -- Clustering is supported; the volume claim for the shared state and the stateful set of the
  -- instance exist, the share is among the set's owners, and it has the size that is asked for.
  pub record Clustered (pl : Planner) : Type 0 where
    pub supported : may_cluster pl ≡ true
    pub state : PersistentVolumeClaim
    pub state_exists : HasState p w pl pl.smb_share.metadata.namespace state
    pub set : Workload
    pub exists :
        p.stateful_sets.get w (object_key pl.smb_share.metadata.namespace (instance_name pl))
        ≡ got set
    pub owned : claimed p.runtime.group_of pl.smb_share (workload_owners set) ≡ some none
    pub replicas : ℤ
    pub has : set.replicas ≡ some replicas
    pub size : ℤ
    pub asked : wanted_size pl ≡ returns size
    pub enough : ltb_int replicas size ≡ false

  -- The service of the instance exists, and the share is among its owners.
  pub record Served (pl : Planner) : Type 0 where
    pub service : Service
    pub exists :
        p.services.get w (object_key pl.smb_share.metadata.namespace (instance_name pl))
        ≡ got service
    pub owned : claimed p.runtime.group_of pl.smb_share (service_owners service) ≡ some none

  -- The share is among the owners of what was found.
  abbrev Owned : {A : Type 0} → (A → List OwnerReference) → SmbShare → A → A → Type 0
  Owned owners s found a = (a ≡ found) × (claimed p.runtime.group_of s (owners found) ≡ some none)

  sized_to-Reads :
      (cfg : OperatorConfig) (obj : Workload) (o : Run ℤ)
      → Reads w
          (λ c a.
            (c ≡ cfg)
            × ((size r : ℤ) × (o ≡ returns size)
                × (obj.replicas ≡ some r)
                × (ltb_int r size ≡ false)))
          (sized_to p obj o w cfg)
  unfolding sized_to update_stateful_set_size
  sized_to-Reads cfg obj panics = tt
  sized_to-Reads cfg obj (returns size) = after_attempt-kept w cfg _ _ (
      Reads-weaken (λ c a. (r : ℤ) × (obj.replicas ≡ some r) × (ltb_int r size ≡ false))
        (λ c a.
          (size' r : ℤ) × (returns size ≡ returns size')
          × (obj.replicas ≡ some r)
          × (ltb_int r size' ≡ false))
        w _ (λ c a (r, has, enough). (size, r, refl, has, enough))
        (with_size-Reads cfg w p.stateful_sets.update (λ r. ltb_int r size) obj size obj.replicas))

  -- The claim of a share exists, and the share has its name.
  abbrev pub Stored : SmbShare → SmbShare → Type 0
  Stored s s' =
      (d : PersistentVolumeClaim) × HasPvc p w s s.metadata.namespace d
      × (s' ≡ with_pvc_name s d.metadata.name)

  module _ (cfg : OperatorConfig) where
    -- The settings stay as they are.
    abbrev pub Kept : {A : Type 0} → (A → Type 0) → OperatorConfig → A → Type 0
    Kept Q c a = (c ≡ cfg) × Q a

    pub update_non_clustered_state-Reads :
        (pl : Planner) → Reads w (Kept (λ a. Standing pl)) (update_non_clustered_state p pl w cfg)
    unfolding update_non_clustered_state update_deployment_size after_change
    update_non_clustered_state-Reads pl =
        let s = pl.smb_share in
        let R = Kept {A = Unit} (λ a. Standing pl) in
        Reads-kept w cfg
          (λ d. p.deployments.get w (object_key s.metadata.namespace (instance_name pl)) ≡ got d) R
          _ _
          (after_attempt-kept w cfg _ _
            (get_or_create_deployment-Reads p cfg w pl s.metadata.namespace))
          (λ found exists.
            Reads-kept w cfg (Owned workload_owners s found) R _ _
              (claim-Reads cfg w p.deployments.update workload_owners set_workload_owners
                p.runtime.group_of s found)
              (λ owned (same, claim).
                Reads-kept w cfg (λ a. (r : ℤ) × (owned.replicas ≡ some r) × (not_one r ≡ false)) R
                  _ _
                  (after_attempt-kept w cfg _ _ (
                    with_size-Reads cfg w p.deployments.update not_one owned (pos 1)
                      owned.replicas))
                  (λ sized (r, has, one). Reads-go w cfg tt R (
                    refl,
                    record {
                      deployment = found;
                      exists = exists;
                      owned = claim;
                      one =
                          subst (λ a. a.replicas ≡ some (pos 1)) same
                            (has ∙ ap (λ n. some n) (one_of_not_one r one));
                    },
                  ))))

    clustered_steps-Reads :
        (pl : Planner)
        → may_cluster pl ≡ true
        → Reads w (Kept (λ a. Clustered pl)) (clustered_steps p pl w cfg)
    unfolding clustered_steps after_change
    clustered_steps-Reads pl may =
        let s = pl.smb_share in
        let R = Kept {A = Unit} (λ a. Clustered pl) in
        Reads-kept w cfg (HasState p w pl s.metadata.namespace) R _ _
          (after_attempt-kept w cfg _ _
            (get_or_create_state_pvc-Reads p cfg w pl s.metadata.namespace))
          (λ state state_exists.
            Reads-kept w cfg
              (λ d.
                p.stateful_sets.get w (object_key s.metadata.namespace (instance_name pl)) ≡ got d)
              R _ _
              (after_attempt-kept w cfg _ _
                (get_or_create_stateful_set-Reads p cfg w pl s.metadata.namespace))
              (λ found exists.
                Reads-kept w cfg (Owned workload_owners s found) R _ _
                  (claim-Reads cfg w p.stateful_sets.update workload_owners set_workload_owners
                    p.runtime.group_of s found)
                  (λ owned (same, claim).
                    Reads-kept w cfg
                      (λ a.
                        (size r : ℤ) × (wanted_size pl ≡ returns size)
                        × (owned.replicas ≡ some r)
                        × (ltb_int r size ≡ false))
                      R _ (λ sized. pass tt) (sized_to-Reads cfg owned (wanted_size pl))
                      (λ sized (size, r, asked, has, enough). Reads-go w cfg tt R (
                        refl,
                        record {
                          supported = may;
                          state = state;
                          state_exists = state_exists;
                          set = found;
                          exists = exists;
                          owned = claim;
                          replicas = r;
                          has = subst (λ a. a.replicas ≡ some r) same has;
                          size = size;
                          asked = asked;
                          enough = enough;
                        },
                      )))))

    pub update_clustered_state-Reads :
        (pl : Planner) → Reads w (Kept (λ a. Clustered pl)) (update_clustered_state p pl w cfg)
    unfolding update_clustered_state
    update_clustered_state-Reads pl = elim (Bool-cases (may_cluster pl)) [
      | inl may ↦ rw may (clustered_steps-Reads pl may)
      | inr never ↦ rw never refl
    ]

    pub update_smb_service-Reads :
        (pl : Planner) → Reads w (Kept (λ a. Served pl)) (update_smb_service p pl w cfg)
    unfolding update_smb_service after_attempt after_change
    update_smb_service-Reads pl =
        let s = pl.smb_share in
        let R = Kept {A = Unit} (λ a. Served pl) in
        Reads-kept w cfg
          (λ d. p.services.get w (object_key s.metadata.namespace (instance_name pl)) ≡ got d) R _ _
          (after_attempt-kept w cfg _ _
            (get_or_create_service-Reads p cfg w pl s.metadata.namespace))
          (λ found exists.
            Reads-kept w cfg (Owned service_owners s found) R _ _
              (claim-Reads cfg w p.services.update service_owners set_service_owners
                p.runtime.group_of s found)
              (λ owned (same, claim).
                Reads-go w cfg tt R
                  (refl, record { service = found; exists = exists; owned = claim })))

    pub update_pvc-Reads : (s : SmbShare) → Reads w (Kept (Stored s)) (update_pvc p s w cfg)
    unfolding update_pvc after_attempt
    update_pvc-Reads s =
        Reads-kept w cfg (HasPvc p w s s.metadata.namespace) (Kept (Stored s)) _ _
          (after_attempt-kept w cfg _ _ (get_or_create_pvc-Reads p cfg w s s.metadata.namespace))
          (λ d has.
            Reads-go w cfg (with_pvc_name s d.metadata.name) (Kept (Stored s))
              (refl, (d, has, refl)))
