-- ===== src/Base/Panics.antt =====
-- Code that may dereference a nil pointer or call `panic`.
use mathlib.Core.Path.{◌≡◌, refl}
use mathlib.Core.Bool.{Bool, true, false}
use samba_operator.Base.Tests.{if◌then◌else◌}
use mathlib.Core.Option.{Option, none, some}
use mathlib.Core.Logic.{◌⊎◌, inl, inr, ◌≢◌}

pub data Run {ℓ} (A : Type ℓ) : Type ℓ where
  returns : A → Run A
  panics : Run A

infixl 5 ◌>>=◌ ◌>>◌
abbrev pub ◌>>=◌ {ℓ κ} : {A : Type ℓ} {B : Type κ} → Run A → (A → Run B) → Run B
returns a >>= f = f a
panics >>= f = panics

abbrev pub ◌>>◌ {ℓ κ} : {A : Type ℓ} {B : Type κ} → Run A → Run B → Run B
m >> k = m >>= λ _. k

-- Reading through a pointer; `none` is nil.
abbrev pub deref {ℓ} : {A : Type ℓ} → Option A → Run A
deref none = panics
deref (some a) = returns a

pub >>=-eq-returns {ℓ κ} :
    {A : Type ℓ} {B : Type κ} (m : Run A) (f : A → Run B) {b : B}
    → (m >>= f) ≡ returns b
    → (a : A) × (m ≡ returns a) × (f a ≡ returns b)
>>=-eq-returns (returns a) f h = (a, refl, h)
>>=-eq-returns panics f h = cc

pub Run-cases {ℓ} : {A : Type ℓ} (m : Run A) → (m ≡ panics) ⊎ ((a : A) × (m ≡ returns a))
Run-cases panics = inl refl
Run-cases (returns a) = inr (a, refl)

pub >>=-ne-panics {ℓ κ} :
    {A : Type ℓ} {B : Type κ} (m : Run A) (f : A → Run B)
    → m ≢ panics
    → ((a : A) → f a ≢ panics)
    → (m >>= f) ≢ panics
>>=-ne-panics panics f h k = absurd (h refl)
>>=-ne-panics (returns a) f h k = k a

-- The code returns, and with a value that satisfies the predicate.
abbrev pub Holds {ℓ κ} : {A : Type ℓ} → (A → Type κ) → Run A → Type (ℓ ⊔ κ)
Holds P m = (a : _) × (m ≡ returns a) × P a

pub Holds->>= {ℓ κ μ ν} :
    {A : Type ℓ} {B : Type κ} {P : A → Type μ} {Q : B → Type ν} {m : Run A} {f : A → Run B}
    → Holds P m
    → ((a : A) → P a → Holds Q (f a))
    → Holds Q (m >>= f)
Holds->>= (a, e, p) k = rw e (k a p)

pub Holds-if {ℓ κ} :
    {A : Type ℓ} {P : A → Type κ} {m n : Run A} (b : Bool)
    → (b ≡ true → Holds P m)
    → (b ≡ false → Holds P n)
    → Holds P (if b then m else n)
Holds-if true h k = h refl
Holds-if false h k = k refl
