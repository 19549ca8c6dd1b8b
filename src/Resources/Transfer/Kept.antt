-- ===== src/Resources/Transfer/Kept.antt =====
-- Where `transferOwnership` lets the finalization go on, it has left the object as it is.
use samba_operator.Base.{◌≡◌, refl, true, false, Option, none, some, List}
use samba_operator.Api.Meta.{OwnerReference}
use samba_operator.Resources.Outcome.{Error, yields}
use samba_operator.Resources.Transfer.{Plan, leave, hand_over, give_up, write_result, run_plan}

module _ {W A : Type 0} (update : W → A → W × Option Error)
    (set_owners : A → List OwnerReference → A) where
  write_result-yields : (err : Option Error) → yields (write_result err) ≡ true
  unfolding write_result
  write_result-yields none = refl
  write_result-yields (some e) = refl

  pub run_plan_kept :
      (w : W) (obj : A) (plan : Plan)
      → yields (run_plan update set_owners w obj plan).1 ≡ false
      → ((run_plan update set_owners w obj plan).0 ≡ w) × (plan ≡ leave)
  unfolding run_plan
  run_plan_kept w obj leave h = (refl, refl)
  run_plan_kept w obj (give_up e) h = cc
  run_plan_kept w obj (hand_over refs) h =
      cc (h, write_result-yields (update w (set_owners obj refs)).1)
