-- ===== src/Resources/Once.antt =====
-- Steps that write at most once, and only where they do not go on: the writes are any relation
-- between what there was before and after.
use samba_operator.Base.{
  ◌≡◌, refl, sym, subst, Bool, true, false, Option, none, some, ◌⊎◌, inl, if◌then◌else◌,
}
use samba_operator.Conf.{OperatorConfig}
use samba_operator.Resources.Outcome.{Error, Result, yields}
use samba_operator.Resources.Attempt.{Attempt, gives, errs, crashes}
use samba_operator.Resources.Step.{
  Outcome, Step, go, stop, crash, next, finished, after_change, after_attempt, unless_yields,
  attempt, change,
}

module _ {W : Type 0} (V : W → W → Type 0) (w : W) where
  abbrev pub AtMost : W → Type 0
  AtMost w' = (w' ≡ w) ⊎ V w w'

  -- What a call answers, where the flag says that it wrote.
  abbrev pub Answers : {A : Type 0} → W × Attempt (Bool × A) → Type 0
  Answers (w', gives (false, a)) = w' ≡ w
  Answers (w', gives (true, a)) = AtMost w'
  Answers (w', errs e) = AtMost w'
  Answers (w', crashes) = AtMost w'

  abbrev pub Changes : {A : Type 0} → W × A × Bool × Option Error → Type 0
  Changes (w', a, false, none) = w' ≡ w
  Changes (w', a, true, none) = AtMost w'
  Changes (w', a, changed, some e) = AtMost w'

  abbrev pub Results : W → Result → Type 0
  Results w' r = AtMost w' × (yields r ≡ false → w' ≡ w)

  abbrev pub Once : {A : Type 0} → Outcome W A → Type 0
  Once (go w' cfg a) = w' ≡ w
  Once (stop w' cfg r) = AtMost w'
  Once (crash w' cfg) = AtMost w'

  -- The last step may write and go on.
  abbrev pub Ends : {A : Type 0} → Outcome W A → Type 0
  Ends (go w' cfg a) = AtMost w'
  Ends (stop w' cfg r) = AtMost w'
  Ends (crash w' cfg) = AtMost w'

  module _ {A : Type 0} where
    pub Once-next :
        {B : Type 0} (o : Outcome W A) (f : A → Step W B)
        → Once o
        → ((cfg : OperatorConfig) (a : A) → Once (f a w cfg))
        → Once (next o f)
    Once-next (go w' cfg a) f same k = subst (λ v. Once (f a v cfg)) (sym same) (k cfg a)
    Once-next (stop w' cfg r) f h k = h
    Once-next (crash w' cfg) f h k = h

    pub Ends-next :
        {B : Type 0} (o : Outcome W A) (f : A → Step W B)
        → Once o
        → ((cfg : OperatorConfig) (a : A) → Ends (f a w cfg))
        → Ends (next o f)
    Ends-next (go w' cfg a) f same k = subst (λ v. Ends (f a v cfg)) (sym same) (k cfg a)
    Ends-next (stop w' cfg r) f h k = h
    Ends-next (crash w' cfg) f h k = h

    pub Once-Ends : (o : Outcome W A) → Once o → Ends o
    Once-Ends (go w' cfg a) same = inl same
    Once-Ends (stop w' cfg r) h = h
    Once-Ends (crash w' cfg) h = h

    pub Ends-finished : (o : Outcome W A) → Ends o → AtMost (finished o).0
    Ends-finished (go w' cfg a) h = h
    Ends-finished (stop w' cfg r) h = h
    Ends-finished (crash w' cfg) h = h

    pub after_attempt-Once :
        (cfg : OperatorConfig) (r : W × Attempt (Bool × A)) → Answers r → Once (after_attempt cfg r)
    unfolding after_attempt
    after_attempt-Once cfg (w', errs e) h = h
    after_attempt-Once cfg (w', crashes) h = h
    after_attempt-Once cfg (w', gives (true, a)) h = h
    after_attempt-Once cfg (w', gives (false, a)) h = h

    pub after_change-Once :
        (cfg : OperatorConfig) (r : W × A × Bool × Option Error)
        → Changes r
        → Once (after_change cfg r)
    unfolding after_change
    after_change-Once cfg (w', a, true, some e) h = h
    after_change-Once cfg (w', a, false, some e) h = h
    after_change-Once cfg (w', a, true, none) h = h
    after_change-Once cfg (w', a, false, none) h = h

    -- A call that answers, and what comes after it.
    pub attempt-Once :
        {B : Type 0} (call : W → W × Attempt (Bool × A)) (f : A → Step W B) (cfg : OperatorConfig)
        → Answers (call w)
        → ((cfg : OperatorConfig) (a : A) → Once (f a w cfg))
        → Once (next (attempt call w cfg) f)
    attempt-Once call f cfg h k =
        Once-next (attempt call w cfg) f (after_attempt-Once cfg (call w) h) k

    pub change-Once :
        {B : Type 0} (call : W → W × A × Bool × Option Error) (f : A → Step W B)
        (cfg : OperatorConfig)
        → Changes (call w)
        → ((cfg : OperatorConfig) (a : A) → Once (f a w cfg))
        → Once (next (change call w cfg) f)
    change-Once call f cfg h k =
        Once-next (change call w cfg) f (after_change-Once cfg (call w) h) k

    yielding-Once :
        (cfg : OperatorConfig) (r : Result) (w' : W) (o : Outcome W A) (b : Bool)
        → AtMost w'
        → (b ≡ false → Once o)
        → Once (if b then stop w' cfg r else o)
    yielding-Once cfg r w' o true h k = h
    yielding-Once cfg r w' o false h k = k refl

    pub unless_yields-Once :
        (cfg : OperatorConfig) (r : Result) (w' : W) (o : Outcome W A)
        → AtMost w'
        → (yields r ≡ false → Once o)
        → Once (unless_yields w' cfg r o)
    unfolding unless_yields
    unless_yields-Once cfg r w' o h k = yielding-Once cfg r w' o (yields r) h k

    -- Under a test, where both branches write at most once.
    pub either-Once :
        (b : Bool) (o o' : Outcome W A) → Once o → Once o' → Once (if b then o else o')
    either-Once true o o' h h' = h
    either-Once false o o' h h' = h'
