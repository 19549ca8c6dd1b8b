-- ===== src/Resources/Volumes/Distinct.antt =====
-- internal/resources/volumes.go: what makes a keeper's volumes valid.
use samba_operator.Base.{String, ◌==◌, ◌≡◌, refl, List, [], ◌∷◌, ◌++◌, true, false, none}
use samba_operator.Base.{All, contains, eq_iff}
use samba_operator.Base.Panics.{returns}
use samba_operator.Resources.Volumes.{VolMount, validate_from, all}

-- A volume and its mount have the same name.
abbrev pub Paired : VolMount → Type 0
Paired v = v.volume.name ≡ v.mount.name

abbrev pub Differs : VolMount → VolMount → Type 0
Differs v w = (v.volume.name == w.volume.name) ≡ false

abbrev pub Distinct : List VolMount → Type 0
Distinct [] = Unit
Distinct (v ∷ vs) = All (Differs v) vs × Distinct vs

abbrev pub Unseen : List String → VolMount → Type 0
Unseen seen v = contains seen v.volume.name ≡ false

module _ {ℓ κ κ'} {A : Type ℓ} {P : A → Type κ} {Q : A → Type κ'} where
  pub All-map : ((a : A) → P a → Q a) → (xs : List A) → All P xs → All Q xs
  All-map f [] h = tt
  All-map f (a ∷ xs) (p, h) = (f a p, All-map f xs h)

pub All-++ {ℓ κ} :
    {A : Type ℓ} (P : A → Type κ) (xs ys : List A) → All P xs → All P ys → All P (xs ++ ys)
All-++ P [] ys h k = k
All-++ P (a ∷ xs) ys (p, h) k = (p, All-++ P xs ys h k)

pub All-always {ℓ κ} : {A : Type ℓ} {P : A → Type κ} → ((a : A) → P a) → (xs : List A) → All P xs
All-always f [] = tt
All-always f (a ∷ xs) = (f a, All-always f xs)

pub Distinct-++ :
    (vs ws : List VolMount)
    → Distinct vs
    → Distinct ws
    → All (λ v. All (Differs v) ws) vs
    → Distinct (vs ++ ws)
Distinct-++ [] ws h k apart = k
Distinct-++ (v ∷ vs) ws (fresh, h) k (a, apart) =
    (All-++ _ vs ws fresh a, Distinct-++ vs ws h k apart)

Unseen-∷ :
    (seen : List String) (v : VolMount) (vs : List VolMount)
    → All (Differs v) vs
    → All (Unseen seen) vs
    → All (Unseen (v.volume.name ∷ seen)) vs
Unseen-∷ seen v [] h k = tt
Unseen-∷ seen v (w ∷ vs) (d, h) (u, k) = (rw d u, Unseen-∷ seen v vs h k)

equal-names : (v : VolMount) → Paired v → (v.volume.name == v.mount.name) ≡ true
equal-names v e = (eq_iff v.volume.name v.mount.name).1 e

validate_from-eq-none :
    (seen : List String) (vs : List VolMount)
    → All Paired vs
    → All (Unseen seen) vs
    → Distinct vs
    → validate_from seen vs ≡ none
unfolding validate_from
validate_from-eq-none seen [] p u d = refl
validate_from-eq-none seen (v ∷ vs) (e, p) (u, us) (fresh, d) =
    let later = validate_from-eq-none (v.volume.name ∷ seen) vs p (Unseen-∷ seen v vs fresh us) d in
    rw later (rw u (rw (equal-names v e) refl))

pub all-eq-returns :
    (vs : List VolMount) → All Paired vs → Distinct vs → all (record { vols = vs }) ≡ returns vs
unfolding all
all-eq-returns vs p d = rw (validate_from-eq-none [] vs p (All-always (λ v. refl) vs) d) refl
