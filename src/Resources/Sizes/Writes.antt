-- ===== src/Resources/Sizes/Writes.antt =====
-- The size of a workload is written once.
use samba_operator.Base.{refl, Bool, true, false, Option, none, some, inl, inr, ◌||◌, if◌then◌else◌}
use samba_operator.Base.Int.{ℤ, pos, ltb_int}
use samba_operator.Resources.Outcome.{Error}
use samba_operator.Resources.Attempt.{Attempt, gives}
use samba_operator.Resources.Objects.{Workload}
use samba_operator.Resources.Once.{Answers}
use samba_operator.Resources.Sizes.{
  resized, write_size, with_size, update_stateful_set_size, update_deployment_size,
}

module _ {W : Type 0} (V : W → W → Type 0) (update : W → Workload → W × Option Error) (w : W)
    (updates : (obj : Workload) → V w (update w obj).0) where
  resized-Answers :
      (obj : Workload) (r : W × Option Error) → V w r.0 → Answers V w (resized update obj r)
  unfolding resized
  resized-Answers obj (w', none) h = inr h
  resized-Answers obj (w', some e) h = inr h

  either-Answers :
      (b : Bool) (obj : Workload) (r : W × Attempt (Bool × Workload))
      → Answers V w r
      → Answers V w (if b then r else (w, gives (false, obj)))
  either-Answers true obj r h = h
  either-Answers false obj r h = refl

  with_size-Answers :
      (differs : ℤ → Bool) (obj : Workload) (size : ℤ) (o : Option ℤ)
      → Answers V w (with_size update differs w obj size o)
  unfolding with_size write_size
  with_size-Answers differs obj size none = inl refl
  with_size-Answers differs obj size (some r) =
      either-Answers (differs r) obj _
        (resized-Answers _ _ (updates (record obj { replicas = some size })))

  pub update_stateful_set_size-Answers :
      (obj : Workload) (size : ℤ) → Answers V w (update_stateful_set_size update w obj size)
  unfolding update_stateful_set_size
  update_stateful_set_size-Answers obj size =
      with_size-Answers (λ r. ltb_int r size) obj size obj.replicas

  pub update_deployment_size-Answers :
      (obj : Workload) → Answers V w (update_deployment_size update w obj)
  unfolding update_deployment_size
  update_deployment_size-Answers obj =
      with_size-Answers (λ r. ltb_int r (pos 1) || ltb_int (pos 1) r) obj (pos 1) obj.replicas
