-- ===== src/Resources/Step.antt =====
-- The manager's methods as steps: they read and write the cluster and the settings that the manager
-- keeps, and go on with a value, return a result, or panic.
use samba_operator.Base.{
  ◌≡◌, refl, subst, sym, ap, Bool, true, false, Option, none, some, if◌then◌else◌,
}
use samba_operator.Base.Panics.{Run, returns, panics}
use samba_operator.Conf.{OperatorConfig}
use samba_operator.Resources.Outcome.{Error, Result, done, requeued, stopped, yields}
use samba_operator.Resources.Attempt.{Attempt, gives, errs, crashes}

-- What is left behind, the cluster and the settings, and how the step ends.
pub data Outcome (W A : Type 0) : Type 0 where
  go : W → OperatorConfig → A → Outcome W A
  stop : W → OperatorConfig → Result → Outcome W A
  crash : W → OperatorConfig → Outcome W A

abbrev pub Step : Type 0 → Type 0 → Type 0
Step W A = W → OperatorConfig → Outcome W A

module _ {W A : Type 0} where
  abbrev pub pass : A → Step W A
  pass a w cfg = go w cfg a

  abbrev pub next : {B : Type 0} → Outcome W A → (A → Step W B) → Outcome W B
  next (go w cfg a) f = f a w cfg
  next (stop w cfg r) f = stop w cfg r
  next (crash w cfg) f = crash w cfg

  -- `if err != nil` and then `if changed` after a call that answers with the object.
  unfoldable pub after_change : OperatorConfig → W × A × Bool × Option Error → Outcome W A
  after_change cfg (w, a, changed, some e) = stop w cfg (stopped e)
  after_change cfg (w, a, true, none) = stop w cfg requeued
  after_change cfg (w, a, false, none) = go w cfg a

  unfoldable pub after_attempt : OperatorConfig → W × Attempt (Bool × A) → Outcome W A
  after_attempt cfg (w, errs e) = stop w cfg (stopped e)
  after_attempt cfg (w, crashes) = crash w cfg
  after_attempt cfg (w, gives (true, a)) = stop w cfg requeued
  after_attempt cfg (w, gives (false, a)) = go w cfg a

  -- `if result.Yield()`
  unfoldable pub unless_yields : W → OperatorConfig → Result → Outcome W A → Outcome W A
  unless_yields w cfg r o = if yields r then stop w cfg r else o

  -- The calls as steps.
  abbrev pub change : (W → W × A × Bool × Option Error) → Step W A
  change call w cfg = after_change cfg (call w)

  abbrev pub attempt : (W → W × Attempt (Bool × A)) → Step W A
  attempt call w cfg = after_attempt cfg (call w)

infixl 5 ◌>>=◌ ◌>>◌
abbrev pub ◌>>=◌ : {W A B : Type 0} → Step W A → (A → Step W B) → Step W B
(m >>= f) w cfg = next (m w cfg) f

abbrev pub ◌>>◌ : {W A B : Type 0} → Step W A → Step W B → Step W B
m >> k = m >>= λ _. k

-- A method's result, where the last step has nothing left to do.
abbrev pub finished : {W A : Type 0} → Outcome W A → W × OperatorConfig × Run Result
finished (go w cfg a) = (w, cfg, returns done)
finished (stop w cfg r) = (w, cfg, returns r)
finished (crash w cfg) = (w, cfg, panics)

-- A step that goes on without having written, and then with what `Q` says of the settings and the
-- value, or that yields.
abbrev pub Reads : {W A : Type 0} → W → (OperatorConfig → A → Type 0) → Outcome W A → Type 0
Reads w Q (go w' cfg a) = (w' ≡ w) × Q cfg a
Reads w Q (stop w' cfg r) = yields r ≡ true
Reads w Q (crash w' cfg) = Unit

module _ {W A B : Type 0} where
  -- One step after another.
  pub Reads-next :
      (w : W) (Q : OperatorConfig → A → Type 0) (R : OperatorConfig → B → Type 0) (o : Outcome W A)
      (f : A → Step W B)
      → Reads w Q o
      → ((cfg : OperatorConfig) (a : A) → Q cfg a → Reads w R (f a w cfg))
      → Reads w R (next o f)
  Reads-next w Q R (go w' cfg a) f (same, q) k =
      subst (λ v. Reads w R (f a v cfg)) (sym same) (k cfg a q)
  Reads-next w Q R (stop w' cfg r) f h k = h
  Reads-next w Q R (crash w' cfg) f h k = tt

  -- The same where the first step leaves the settings as they are.
  pub Reads-kept :
      (w : W) (cfg : OperatorConfig) (Q : A → Type 0) (R : OperatorConfig → B → Type 0)
      (o : Outcome W A) (f : A → Step W B)
      → Reads w (λ c a. (c ≡ cfg) × Q a) o
      → ((a : A) → Q a → Reads w R (f a w cfg))
      → Reads w R (next o f)
  Reads-kept w cfg Q R o f h k =
      Reads-next w (λ c a. (c ≡ cfg) × Q a) R o f h
        (λ c a (same, q). subst (λ d. Reads w R (f a w d)) (sym same) (k a q))

module _ {W A : Type 0} where
  pub after_attempt-kept :
      (w : W) (cfg : OperatorConfig) (Q : A → Type 0) (r : W × Attempt (Bool × A))
      → Reads w (λ c a. Q a) (after_attempt cfg r)
      → Reads w (λ c a. (c ≡ cfg) × Q a) (after_attempt cfg r)
  unfolding after_attempt
  after_attempt-kept w cfg Q (w', errs e) h = refl
  after_attempt-kept w cfg Q (w', crashes) h = tt
  after_attempt-kept w cfg Q (w', gives (true, a)) h = refl
  after_attempt-kept w cfg Q (w', gives (false, a)) (same, q) = (same, (refl, q))

  pub Reads-go :
      (w : W) (cfg : OperatorConfig) (a : A) (Q : OperatorConfig → A → Type 0)
      → Q cfg a
      → Reads w Q (go w cfg a)
  Reads-go w cfg a Q q = (refl, q)

  pub Reads-weaken :
      (Q R : OperatorConfig → A → Type 0) (w : W) (o : Outcome W A)
      → ((cfg : OperatorConfig) (a : A) → Q cfg a → R cfg a)
      → Reads w Q o
      → Reads w R o
  Reads-weaken Q R w (go w' cfg a) k (same, q) = (same, k cfg a q)
  Reads-weaken Q R w (stop w' cfg r) k h = h
  Reads-weaken Q R w (crash w' cfg) k h = h

  -- A method that ends with nothing left to do.
  pub Reads-finished :
      (Q : OperatorConfig → A → Type 0) (w w' : W) (cfg : OperatorConfig) (o : Outcome W A)
      → Reads w Q o
      → finished o ≡ (w', cfg, returns done)
      → (w' ≡ w) × (a : A) × Q cfg a
  Reads-finished Q w w' cfg (go v cfg₁ a) (same, q) h =
      (cc, a, subst (λ c. Q c a) (ap (λ (o : W × OperatorConfig × Run Result). o.1) h) q)
  Reads-finished Q w w' cfg (stop v cfg₁ r) h e = cc
  Reads-finished Q w w' cfg (crash v cfg₁) h e = cc
