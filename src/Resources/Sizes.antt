-- ===== src/Resources/Sizes.antt =====
-- internal/resources/smbshare.go: the size of a server's deployment or stateful set, and the names
-- of its volume claims. `update` is the client's, for the objects of the kind.
pub mod Grows
pub mod Writes
use samba_operator.Base.{
  String, ◌<>◌, ◌==◌, ◌!=◌, if◌then◌else◌, Bool, true, false, not, ◌||◌, ◌&&◌, Option, none, some,
  is_some,
}
use samba_operator.Base.Int.{ℤ, pos, ltb_int}
use samba_operator.Base.Panics.{Run, returns, ◌>>=◌, deref}
use samba_operator.Api.SmbShare.{SmbShare}
use samba_operator.Planner.Instance.{Planner}
use samba_operator.Planner.Properties.{instance_name}
use samba_operator.Resources.Outcome.{Error}
use samba_operator.Resources.Attempt.{Attempt, gives, errs, crashes}
use samba_operator.Resources.Objects.{Workload}

unfoldable pub pvc_name : SmbShare → Run String
pvc_name s = do
  pvc ← deref s.spec.storage.pvc
  returns (if pvc.name != "" then pvc.name else s.metadata.name <> "-pvc")

unfoldable pub shared_state_pvc_name : Planner → String
unfolding instance_name
shared_state_pvc_name pl = instance_name pl <> "-state"

unfoldable pub share_needs_pvc : SmbShare → Bool
share_needs_pvc s = elim s.spec.storage.pvc [ none ↦ false | some pvc ↦ is_some pvc.spec ]

module _ {W : Type 0} (update : W → Workload → W × Option Error) where
  unfoldable pub resized : Workload → W × Option Error → W × Attempt (Bool × Workload)
  resized obj (w, some e) = (w, errs e)
  resized obj (w, none) = (w, gives (true, obj))

  unfoldable pub write_size : W → Workload → ℤ → W × Attempt (Bool × Workload)
  unfolding resized
  write_size w obj size =
      let obj' = record obj { replicas = some size } in resized obj' (update w obj')

  -- The comparison says whether the size is to be written.
  unfoldable pub with_size :
      (ℤ → Bool) → W → Workload → ℤ → Option ℤ → W × Attempt (Bool × Workload)
  unfolding write_size
  with_size differs w obj size none = (w, crashes)
  with_size differs w obj size (some r) =
      if differs r then write_size w obj size else (w, gives (false, obj))

  -- The size is read through a pointer, which is not tested for nil.
  unfoldable pub update_stateful_set_size : W → Workload → ℤ → W × Attempt (Bool × Workload)
  unfolding with_size
  update_stateful_set_size w obj size = with_size (λ r. ltb_int r size) w obj size obj.replicas

  unfoldable pub update_deployment_size : W → Workload → W × Attempt (Bool × Workload)
  unfolding with_size
  update_deployment_size w obj =
      with_size (λ r. ltb_int r (pos 1) || ltb_int (pos 1) r) w obj (pos 1) obj.replicas
