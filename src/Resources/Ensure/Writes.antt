-- ===== src/Resources/Ensure/Writes.antt =====
-- What is ensured is created once.
use samba_operator.Base.{
  ◌≡◌, refl, ap, ◌∙◌, Bool, true, false, if◌then◌else◌, Option, none, some, inl, inr,
}
use samba_operator.Api.Meta.{NamespacedName}
use samba_operator.Resources.Outcome.{Error, not_found, failed}
use samba_operator.Resources.Kube.{Api, Reply, got, refused}
use samba_operator.Resources.Attempt.{errs}
use samba_operator.Resources.Once.{Answers}
use samba_operator.Resources.Ensure.{retried, create_or_retry, or_create, ensure, Refuses}

module _ {W A : Type 0} (V : W → W → Type 0) (is_already_exists : Error → Bool) (api : Api W A)
    (key : NamespacedName) (refusing : Refuses is_already_exists api) (w : W)
    (creates : (obj : A) → V w (api.create w obj).0) where
  reread-Answers :
      (w' : W) (e : Error) (b : Bool)
      → V w w'
      → api.get w key ≡ refused not_found
      → (b ≡ true → w' ≡ w)
      → Answers V w
          (if b then (w', retried is_already_exists api key (api.get w' key)) else (w', errs e))
  unfolding retried
  reread-Answers w' e true h missing same =
      rw (ap (λ v. api.get v key) (same refl) ∙ missing) (inr h)
  reread-Answers w' e false h missing same = inr h

  created-Answers :
      (want : A) (r : W × Option Error)
      → V w r.0
      → api.get w key ≡ refused not_found
      → ((w' : W) (e : Error) → r ≡ (w', some e) → is_already_exists e ≡ true → w' ≡ w)
      → Answers V w (create_or_retry is_already_exists api key want r)
  unfolding create_or_retry
  created-Answers want (w', none) h missing same = inr h
  created-Answers want (w', some e) h missing same =
      reread-Answers w' e (is_already_exists e) h missing (same w' e refl)

  or_create-Answers :
      (want : A) (r : Reply A)
      → api.get w key ≡ r
      → Answers V w (or_create is_already_exists api key w want r)
  unfolding or_create
  or_create-Answers want (got obj) h = refl
  or_create-Answers want (refused (failed e)) h = inl refl
  or_create-Answers want (refused not_found) h =
      created-Answers want (api.create w want) (creates want) h (λ w' e. refusing w w' want e)

  pub ensure-Answers : (want : A) → Answers V w (ensure is_already_exists api key w want)
  unfolding ensure
  ensure-Answers want = or_create-Answers want (api.get w key) refl
