-- ===== src/Resources/Transfer/Writes.antt =====
-- An object is handed over with one write.
use samba_operator.Base.{refl, Option, none, some, List, inl, inr}
use samba_operator.Api.Meta.{OwnerReference}
use samba_operator.Resources.Outcome.{Error, Result}
use samba_operator.Resources.Once.{Results}
use samba_operator.Resources.Transfer.{Plan, leave, give_up, hand_over, write_result, run_plan}

module _ {W : Type 0} (V : W → W → Type 0) (w : W) where
  abbrev pub Resulting : W × Result → Type 0
  Resulting (w', r) = Results V w w' r

  wrote-Resulting : (r : W × Option Error) → V w r.0 → Resulting (r.0, write_result r.1)
  unfolding write_result
  wrote-Resulting (w', none) h = (inr h, λ e. cc e)
  wrote-Resulting (w', some x) h = (inr h, λ e. cc e)

  pub run_plan-Resulting :
      {A : Type 0} (update : W → A → W × Option Error) (set_owners : A → List OwnerReference → A)
      (obj : A) (plan : Plan)
      → ((a : A) → V w (update w a).0)
      → Resulting (run_plan update set_owners w obj plan)
  unfolding run_plan
  run_plan-Resulting update set_owners obj leave updates = (inl refl, λ e. refl)
  run_plan-Resulting update set_owners obj (give_up x) updates = (inl refl, λ e. refl)
  run_plan-Resulting update set_owners obj (hand_over refs) updates =
      wrote-Resulting (update w (set_owners obj refs)) (updates (set_owners obj refs))
