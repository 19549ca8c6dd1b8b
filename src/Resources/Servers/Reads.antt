-- ===== src/Resources/Servers/Reads.antt =====
-- What a claim and a change of size have read, where the next step follows.
use samba_operator.Base.{
  ◌≡◌, refl, String, Bool, true, false, Option, none, some, List, Bool-cases, inl, inr,
}
use samba_operator.Base.Int.{ℤ}
use samba_operator.Api.Meta.{OwnerReference}
use samba_operator.Api.SmbShare.{SmbShare}
use samba_operator.Conf.{OperatorConfig}
use samba_operator.Resources.Outcome.{Error}
use samba_operator.Resources.Objects.{Workload}
use samba_operator.Resources.Claims.{claimed, claim_ownership}
use samba_operator.Resources.Claims.Once.{claim_ownership_unchanged}
use samba_operator.Resources.Sizes.{resized, write_size, with_size}
use samba_operator.Resources.Step.{Reads, after_change, after_attempt}

module _ {W A : Type 0} (cfg : OperatorConfig) (w : W) where
  pub change-Reads :
      (Q : A → Type 0) (r : W × A × Bool × Option Error)
      → ((w' : W) (a : A) → r ≡ (w', a, false, none) → (w' ≡ w) × Q a)
      → Reads w (λ c a. (c ≡ cfg) × Q a) (after_change cfg r)
  unfolding after_change
  change-Reads Q (w', a, changed, some e) h = refl
  change-Reads Q (w', a, true, none) h = refl
  change-Reads Q (w', a, false, none) h = let (same, q) = h w' a refl in (same, (refl, q))

  -- The share is among the owners of the object.
  pub claim-Reads :
      (update : W → A → W × Option Error) (owners : A → List OwnerReference)
      (set_owners : A → List OwnerReference → A) (group_of : String → Option String) (s : SmbShare)
      (obj : A)
      → Reads w
          (λ c a. (c ≡ cfg) × ((a ≡ obj) × (claimed group_of s (owners obj) ≡ some none)))
          (after_change cfg (claim_ownership update owners set_owners group_of w s obj))
  claim-Reads update owners set_owners group_of s obj =
      change-Reads (λ a. (a ≡ obj) × (claimed group_of s (owners obj) ≡ some none))
        (claim_ownership update owners set_owners group_of w s obj)
        (λ w' a h.
          let (still, same, owned) =
            claim_ownership_unchanged update owners set_owners group_of w w' s obj a h in
          (still, (same, owned)))

module _ {W : Type 0} (cfg : OperatorConfig) (w : W)
    (update : W → Workload → W × Option Error) where
  resized-Reads :
      (obj : Workload) (Q : Workload → Type 0) (r : W × Option Error)
      → Reads w (λ c a. Q a) (after_attempt cfg (resized update obj r))
  unfolding resized after_attempt
  resized-Reads obj Q (w', none) = refl
  resized-Reads obj Q (w', some e) = refl

  pub with_size-Reads :
      (differs : ℤ → Bool) (obj : Workload) (size : ℤ) (o : Option ℤ)
      → Reads w
          (λ c a. (r : ℤ) × (o ≡ some r) × (differs r ≡ false))
          (after_attempt cfg (with_size update differs w obj size o))
  unfolding with_size write_size after_attempt
  with_size-Reads differs obj size none = tt
  with_size-Reads differs obj size (some r) = elim (Bool-cases (differs r)) [
    | inl other ↦ rw other (
        resized-Reads (record obj { replicas = some size })
          (λ a. (r' : ℤ) × (some r ≡ some r') × (differs r' ≡ false))
          (update w (record obj { replicas = some size })))
    | inr same ↦ rw same (refl, (r, refl, same))
  ]
