-- ===== src/Resources/Reconcile/Steps.antt =====
-- internal/resources/smbshare.go: what each step of `Update` has read, where the next step follows.
use samba_operator.Base.{
  ◌≡◌, refl, sym, ◌∙◌, Bool, true, false, Option, none, some, Bool-cases, inl, inr,
}
use samba_operator.Base.Panics.{Run, returns, panics}
use samba_operator.Api.SmbShare.{SmbShare}
use samba_operator.Conf.{OperatorConfig}
use samba_operator.Planner.Instance.{Planner}
use samba_operator.Resources.Outcome.{Error, Result, yields}
use samba_operator.Resources.Claims.{add_finalizer, share_finalizer}
use samba_operator.Resources.ServerGroup.{
  GroupPlan, keep, assign, reject, plan_group, set_server_group,
}
use samba_operator.Resources.Backend.{backend_of, wanted_backend, settle_backend}
use samba_operator.Resources.Backend.Recorded.{settle_backend_kept}
use samba_operator.Resources.Platform.{Platform}
use samba_operator.Resources.Servers.Reads.{change-Reads}
use samba_operator.Resources.Servers.Running.{Kept}
use samba_operator.Resources.Step.{Reads, after_change, go, unless_yields}
use samba_operator.Resources.Reconcile.{with_planner, with_backend}

module _ {W : Type 0} (p : Platform W) (w : W) (cfg : OperatorConfig) where
  pub unless-Reads :
      {A : Type 0} (Q : A → Type 0) (w' : W) (r : Result) (a : A)
      → (yields r ≡ false → (w' ≡ w) × Q a)
      → Reads w (Kept p w cfg Q) (unless_yields w' cfg r (go w' cfg a))
  unfolding unless_yields
  unless-Reads Q w' r a h = elim (Bool-cases (yields r)) [
    | inl stops ↦ rw stops stops
    | inr goes ↦ rw goes (let (same, q) = h goes in (same, (refl, q)))
  ]

  finalizer_kept :
      (w' : W) (s s' : SmbShare)
      → add_finalizer p.runtime p.client w s ≡ (w', s', false, none)
      → (w' ≡ w) × ((s' ≡ s) × (p.runtime.contains_finalizer s share_finalizer ≡ true))
  unfolding add_finalizer
  finalizer_kept w' s s' h = elim (Bool-cases (p.runtime.contains_finalizer s share_finalizer)) [
    | inl has ↦
        let same : ◌≡◌ {A = W × SmbShare × Bool × Option Error} (w, s, false, none)
            (w', s', false, none) =
          sym (rw has refl) ∙ h in
        (cc same, (cc same, has))
    | inr lacks ↦ cc (h, lacks)
  ]

  group_kept :
      (w' : W) (s s' : SmbShare) (g : GroupPlan)
      → plan_group s ≡ g
      → set_server_group p.client w s ≡ (w', s', false, none)
      → (w' ≡ w) × ((s' ≡ s) × (plan_group s ≡ keep))
  unfolding set_server_group
  group_kept w' s s' keep e h = (cc (h, e), (cc (h, e), e))
  group_kept w' s s' (assign g) e h = cc (h, e)
  group_kept w' s s' (reject msg) e h = cc (h, e)

  pub add_finalizer-Reads :
      (s : SmbShare)
      → Reads w
          (Kept p w cfg (λ s'. (s' ≡ s) × (p.runtime.contains_finalizer s share_finalizer ≡ true)))
          (after_change cfg (add_finalizer p.runtime p.client w s))
  add_finalizer-Reads s =
      change-Reads cfg w (λ s'. (s' ≡ s) × (p.runtime.contains_finalizer s share_finalizer ≡ true))
        (add_finalizer p.runtime p.client w s) (λ w' s' h. finalizer_kept w' s s' h)

  pub set_server_group-Reads :
      (s : SmbShare)
      → Reads w
          (Kept p w cfg (λ s'. (s' ≡ s) × (plan_group s ≡ keep)))
          (after_change cfg (set_server_group p.client w s))
  set_server_group-Reads s =
      change-Reads cfg w (λ s'. (s' ≡ s) × (plan_group s ≡ keep)) (set_server_group p.client w s)
        (λ w' s' h. group_kept w' s s' (plan_group s) refl h)

  pub with_planner-Reads :
      (Q : Planner → Type 0) (r : W × Run (Option Planner × Result))
      → ((w' : W) (pl : Planner) (res : Result)
          → r ≡ (w', returns (some pl, res))
          → (w' ≡ w) × Q pl)
      → Reads w (Kept p w cfg Q) (with_planner cfg r)
  unfolding with_planner unless_yields
  with_planner-Reads Q (w', panics) h = tt
  with_planner-Reads Q (w', returns (none, r)) h = elim (Bool-cases (yields r)) [
    | inl stops ↦ rw stops stops
    | inr goes ↦ rw goes tt
  ]
  with_planner-Reads Q (w', returns (some pl, r)) h =
      unless-Reads Q w' r pl (λ goes. h w' pl r refl)

  pub settle_backend-Reads :
      (pl : Planner)
      → Reads w
          (Kept p w cfg (λ pl'. (pl' ≡ pl) × (backend_of pl.smb_share ≡ wanted_backend pl)))
          (with_backend cfg (settle_backend p.client w pl))
  unfolding with_backend
  settle_backend-Reads pl =
      let r = settle_backend p.client w pl in
      unless-Reads (λ pl'. (pl' ≡ pl) × (backend_of pl.smb_share ≡ wanted_backend pl)) r.0 r.2 r.1
        (λ goes.
          let (still, same, recorded) = settle_backend_kept p.client w pl goes in
          (still, (same, recorded)))
