-- ===== src/Resources/OpenShift/Writes.antt =====
-- One object is deleted at a time.
use samba_operator.Base.{
  refl, ◌==◌, Bool, true, false, Option, none, some, List, [], ◌∷◌, inl, inr, if◌then◌else◌,
}
use samba_operator.Api.SmbShare.{SmbShare}
use samba_operator.Conf.{OperatorConfig, cluster_type_open_shift}
use samba_operator.Resources.Outcome.{Error, Result, done}
use samba_operator.Resources.Transfer.Writes.{Resulting}
use samba_operator.Resources.OpenShift.{
  Grant, GrantApi, grant_key, deleted, finalize_grant, finalize_grants, finalize_for_openshift,
  all_grants,
}

module _ {W : Type 0} (V : W → W → Type 0) (api : GrantApi W) (w : W)
    (deletes : (g : Grant) (s : SmbShare) → V w (api.delete w g (grant_key s g)).0) where
  deleted-Resulting : (r : W × Option Error) → V w r.0 → Resulting V w (deleted api r)
  unfolding deleted
  deleted-Resulting (w', none) h = (inr h, λ e. cc e)
  deleted-Resulting (w', some x) h = (inr h, λ e. cc e)

  finalize_grant-Resulting :
      (s : SmbShare) (g : Grant) (found : Option Error) (later : W × Result)
      → Resulting V w later
      → Resulting V w (finalize_grant api w s g found later)
  unfolding finalize_grant
  finalize_grant-Resulting s g none later h =
      deleted-Resulting (api.delete w g (grant_key s g)) (deletes g s)
  finalize_grant-Resulting s g (some e) later h = h

  finalize_grants-Resulting :
      (s : SmbShare) (gs : List Grant) → Resulting V w (finalize_grants api w s gs)
  unfolding finalize_grants
  finalize_grants-Resulting s [] = (inl refl, λ e. refl)
  finalize_grants-Resulting s (g ∷ gs) =
      finalize_grant-Resulting s g (api.get w g (grant_key s g)) (finalize_grants api w s gs)
        (finalize_grants-Resulting s gs)

  either-Resulting :
      (b : Bool) (r : W × Result) → Resulting V w r → Resulting V w (if b then r else (w, done))
  either-Resulting true r h = h
  either-Resulting false r h = (inl refl, λ e. refl)

  pub finalize_for_openshift-Resulting :
      (cfg : OperatorConfig) (s : SmbShare) → Resulting V w (finalize_for_openshift api w cfg s)
  unfolding finalize_for_openshift
  finalize_for_openshift-Resulting cfg s =
      either-Resulting (cfg.cluster_type == cluster_type_open_shift)
        (finalize_grants api w s (all_grants api)) (finalize_grants-Resulting s (all_grants api))
