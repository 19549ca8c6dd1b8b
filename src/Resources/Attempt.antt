-- ===== src/Resources/Attempt.antt =====
-- Code that returns a value or an error, and may panic.
use samba_operator.Base.{◌≡◌, refl, Option, none, some}
use samba_operator.Base.Panics.{Run, returns, panics}
use samba_operator.Resources.Outcome.{Error}
use samba_operator.Resources.Kube.{Reply, got, refused}

pub data Attempt {ℓ} (A : Type ℓ) : Type ℓ where
  gives : A → Attempt A
  errs : Error → Attempt A
  crashes : Attempt A

infixl 5 ◌>>=◌ ◌>>◌
abbrev pub ◌>>=◌ {ℓ κ} : {A : Type ℓ} {B : Type κ} → Attempt A → (A → Attempt B) → Attempt B
gives a >>= f = f a
errs e >>= f = errs e
crashes >>= f = crashes

abbrev pub ◌>>◌ {ℓ κ} : {A : Type ℓ} {B : Type κ} → Attempt A → Attempt B → Attempt B
m >> k = m >>= λ _. k

abbrev pub of_run {ℓ} : {A : Type ℓ} → Run A → Attempt A
of_run (returns a) = gives a
of_run panics = crashes

abbrev pub of_reply : {A : Type 0} → Reply A → Attempt A
of_reply (got a) = gives a
of_reply (refused e) = errs e

abbrev pub or_error {ℓ} : {A : Type ℓ} → Error → Option A → Attempt A
or_error e none = errs e
or_error e (some a) = gives a

pub >>=-eq-gives {ℓ κ} :
    {A : Type ℓ} {B : Type κ} (m : Attempt A) (f : A → Attempt B) {b : B}
    → (m >>= f) ≡ gives b
    → (a : A) × (m ≡ gives a) × (f a ≡ gives b)
>>=-eq-gives (gives a) f h = (a, refl, h)
>>=-eq-gives (errs e) f h = cc
>>=-eq-gives crashes f h = cc

pub of_run-eq-gives {ℓ} : {A : Type ℓ} (m : Run A) {a : A} → of_run m ≡ gives a → m ≡ returns a
of_run-eq-gives (returns b) h = cc
of_run-eq-gives panics h = cc

pub or_error-eq-gives {ℓ} :
    {A : Type ℓ} (e : Error) (o : Option A) {a : A} → or_error e o ≡ gives a → o ≡ some a
or_error-eq-gives e (some b) h = cc
or_error-eq-gives e none h = cc
