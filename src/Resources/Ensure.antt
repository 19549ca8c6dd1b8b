-- ===== src/Resources/Ensure.antt =====
-- internal/resources/openshift.go and metrics.go: the calls that create an object where it is not
-- found, and read it again where another one was faster. The flag says whether it was created.
pub mod Writes
use samba_operator.Base.{◌≡◌, refl, ap, ◌∙◌, Bool, true, false, Option, none, some}
use samba_operator.Base.{if◌then◌else◌}
use samba_operator.Api.Meta.{NamespacedName}
use samba_operator.Conf.{OperatorConfig}
use samba_operator.Resources.Outcome.{Error, not_found, failed}
use samba_operator.Resources.Kube.{Api, Reply, got, refused}
use samba_operator.Resources.Attempt.{Attempt, gives, errs}
use samba_operator.Resources.Step.{Reads, after_attempt}

-- A creation that is refused because an object of the name exists leaves the cluster as it is.
abbrev pub Refuses : {W A : Type 0} → (Error → Bool) → Api W A → Type 0
Refuses {W} {A} is_already_exists api =
    (w w' : W) (want : A) (e : Error)
    → api.create w want ≡ (w', some e)
    → is_already_exists e ≡ true
    → w' ≡ w

module _ {W A : Type 0} (is_already_exists : Error → Bool) (api : Api W A)
    (key : NamespacedName) where
  retried : Reply A → Attempt (Bool × A)
  retried (got obj) = gives (false, obj)
  retried (refused e) = errs e

  create_or_retry : A → W × Option Error → W × Attempt (Bool × A)
  unfolding retried
  create_or_retry want (w, none) = (w, gives (true, want))
  create_or_retry want (w, some e) =
      if is_already_exists e then (w, retried (api.get w key)) else (w, errs e)

  unfoldable pub or_create : W → A → Reply A → W × Attempt (Bool × A)
  unfolding create_or_retry
  or_create w want (got obj) = (w, gives (false, obj))
  or_create w want (refused (failed e)) = (w, errs (failed e))
  or_create w want (refused not_found) = create_or_retry want (api.create w want)

  unfoldable pub ensure : W → A → W × Attempt (Bool × A)
  unfolding or_create
  ensure w want = or_create w want (api.get w key)

  -- What the second read finds, where the first one found nothing and nothing changed.
  reread-Reads :
      (cfg : OperatorConfig) (w w' : W) (e : Error) (Q : A → Type 0) (b : Bool)
      → api.get w key ≡ refused not_found
      → (b ≡ true → w' ≡ w)
      → Reads w
          (λ c obj. Q obj)
          (after_attempt cfg (if b then (w', retried (api.get w' key)) else (w', errs e)))
  unfolding retried after_attempt
  reread-Reads cfg w w' e Q true missing same =
      rw (ap (λ v. api.get v key) (same refl) ∙ missing) refl
  reread-Reads cfg w w' e Q false missing same = refl

  created-Reads :
      (cfg : OperatorConfig) (w : W) (want : A) (Q : A → Type 0) (r : W × Option Error)
      → api.get w key ≡ refused not_found
      → ((w' : W) (e : Error) → r ≡ (w', some e) → is_already_exists e ≡ true → w' ≡ w)
      → Reads w (λ c obj. Q obj) (after_attempt cfg (create_or_retry want r))
  unfolding create_or_retry after_attempt
  created-Reads cfg w want Q (w', none) missing same = refl
  created-Reads cfg w want Q (w', some e) missing same =
      reread-Reads cfg w w' e Q (is_already_exists e) missing (same w' e refl)

  or_create-Reads :
      (cfg : OperatorConfig) (w : W) (want : A) (r : Reply A)
      → Refuses is_already_exists api
      → api.get w key ≡ r
      → Reads w (λ c obj. r ≡ got obj) (after_attempt cfg (or_create w want r))
  unfolding or_create after_attempt
  or_create-Reads cfg w want (got obj) refusing h = (refl, refl)
  or_create-Reads cfg w want (refused (failed e)) refusing h = refl
  or_create-Reads cfg w want (refused not_found) refusing h =
      created-Reads cfg w want (λ obj. refused not_found ≡ got obj) (api.create w want) h
        (λ w' e. refusing w w' want e)

  pub ensure-Reads :
      (cfg : OperatorConfig) (w : W) (want : A)
      → Refuses is_already_exists api
      → Reads w (λ c obj. api.get w key ≡ got obj) (after_attempt cfg (ensure w want))
  unfolding ensure
  ensure-Reads cfg w want refusing = or_create-Reads cfg w want (api.get w key) refusing refl

  pub ensure_found :
      (w : W) (want obj : A) → api.get w key ≡ got obj → ensure w want ≡ (w, gives (false, obj))
  unfolding ensure or_create
  ensure_found w want obj h = rw h refl
