-- ===== src/Resources/Reconcile/StepWrites.antt =====
-- internal/resources/smbshare.go: what follows a result only where it does not yield.
use samba_operator.Base.{refl, inl, inr, Option, none, some}
use samba_operator.Base.Panics.{Run, returns, panics}
use samba_operator.Conf.{OperatorConfig}
use samba_operator.Planner.Instance.{Planner}
use samba_operator.Resources.Outcome.{Error, Result}
use samba_operator.Resources.Attempt.{Attempt, gives, errs, crashes}
use samba_operator.Resources.Backend.Writes.{Backed}
use samba_operator.Resources.Transfer.Writes.{Resulting}
use samba_operator.Resources.Manager.Writes.{Yielded, Settles}
use samba_operator.Resources.Step.{Step, go, crash}
use samba_operator.Resources.Once.{Once, Ends, unless_yields-Once}
use samba_operator.Resources.Reconcile.{
  with_planner, with_backend, with_result, with_run, with_read, after_write,
}

module _ {W : Type 0} (V : W → W → Type 0) (w : W) (cfg : OperatorConfig) where
  pub with_planner-Once :
      (r : W × Run (Option Planner × Result)) → Yielded V w r → Once V w (with_planner cfg r)
  unfolding with_planner
  with_planner-Once (w', panics) h = h
  with_planner-Once (w', returns (none, r)) h =
      unless_yields-Once V w cfg r w' (crash w' cfg) h (λ e. h)
  with_planner-Once (w', returns (some pl, r)) same =
      unless_yields-Once V w cfg r w' (go w' cfg pl) (inl same) (λ e. same)

  pub with_backend-Once : (r : W × Planner × Result) → Backed V w r → Once V w (with_backend cfg r)
  unfolding with_backend
  with_backend-Once (w', pl, r) (h, kept) = unless_yields-Once V w cfg r w' (go w' cfg pl) h kept

  pub with_result-Once : (r : W × Result) → Resulting V w r → Once V w (with_result cfg r)
  unfolding with_result
  with_result-Once (w', r) (h, kept) = unless_yields-Once V w cfg r w' (go w' cfg tt) h kept

  pub with_run-Once : (r : W × Run Result) → Settles V w r → Once V w (with_run cfg r)
  unfolding with_run
  with_run-Once (w', panics) h = h
  with_run-Once (w', returns r) (h, kept) = unless_yields-Once V w cfg r w' (go w' cfg tt) h kept

  pub with_read-Once :
      {A : Type 0} (o : Attempt (Option A)) (f : Option A → Step W Unit)
      → ((found : Option A) → Once V w (f found w cfg))
      → Once V w (with_read o f w cfg)
  unfolding with_read
  with_read-Once (gives o) f k = k o
  with_read-Once (errs e) f k = inl refl
  with_read-Once crashes f k = inl refl

  pub after_write-Ends : (r : W × Option Error) → V w r.0 → Ends V w (after_write cfg r)
  unfolding after_write
  after_write-Ends (w', none) h = inr h
  after_write-Ends (w', some e) h = inr h
