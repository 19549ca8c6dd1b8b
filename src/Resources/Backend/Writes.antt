-- ===== src/Resources/Backend/Writes.antt =====
-- The backend is written once.
use samba_operator.Base.{refl, ◌!=◌, Bool, true, false, Option, none, some, inl, inr, if◌then◌else◌}
use samba_operator.Planner.Instance.{Planner}
use samba_operator.Resources.Outcome.{Error, Result}
use samba_operator.Resources.Kube.{Client}
use samba_operator.Api.SmbShare.{SmbShare}
use samba_operator.Resources.Once.{Results}
use samba_operator.Resources.Backend.{
  annotated, backend_of, update_result, update_backend, validate_backend, settle_backend,
}

module _ {W : Type 0} (V : W → W → Type 0) (w : W) where
  abbrev pub Backed : W × Planner × Result → Type 0
  Backed (w', pl, r) = Results V w w' r

  wrote-Backed :
      (pl : Planner) (r : W × Option Error) → V w r.0 → Backed (r.0, pl, update_result r.1)
  unfolding update_result
  wrote-Backed pl (w', none) h = (inr h, λ e. cc e)
  wrote-Backed pl (w', some x) h = (inr h, λ e. cc e)

  either-Backed :
      (b : Bool) (pl : Planner) (r : Result) (o : W × Planner × Result)
      → Backed o
      → Backed (if b then (w, pl, r) else o)
  either-Backed true pl r o h = (inl refl, λ e. refl)
  either-Backed false pl r o h = h

  module _ (client : Client W) (updates : (s : SmbShare) → V w (client.shares.update w s).0) where
    update_backend-Backed : (pl : Planner) → Backed (update_backend client w pl)
    unfolding update_backend
    update_backend-Backed pl =
        wrote-Backed (record pl { smb_share = annotated pl })
          (client.shares.update w (annotated pl)) (updates (annotated pl))

    pub settle_backend-Backed : (pl : Planner) → Backed (settle_backend client w pl)
    unfolding settle_backend
    settle_backend-Backed pl =
        either-Backed (backend_of pl.smb_share != "") pl (validate_backend pl)
          (update_backend client w pl) (update_backend-Backed pl)
