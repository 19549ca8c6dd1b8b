-- ===== src/Resources/OpenShift/Unread.antt =====
-- internal/resources/openshift.go: where the finalization on OpenShift goes on, the read of each
-- object that was made for the share gave an error. Any error does: an object that is not found is
-- gone, but one whose read failed otherwise may be left behind.
use samba_operator.Base.{
  ◌≡◌, refl, sym, ap, ◌∙◌, Bool, true, false, Option, none, some, List, [], ◌∷◌, All,
}
use samba_operator.Base.{◌==◌, if◌then◌else◌}
use samba_operator.Api.SmbShare.{SmbShare}
use samba_operator.Conf.{OperatorConfig, cluster_type_open_shift}
use samba_operator.Resources.Outcome.{Error, Result, done, yields}
use samba_operator.Resources.OpenShift.{
  Grant, GrantApi, grant_key, deleted, finalize_grant, finalize_grants, all_grants,
  finalize_for_openshift,
}

module _ {W : Type 0} (api : GrantApi W) (s : SmbShare) where
  -- The read of the object gives an error, not found or another.
  abbrev pub Unread : W → Grant → Type 0
  Unread w g = (e : Error) × (api.get w g (grant_key s g) ≡ some e)

  deleted-yields : (r : W × Option Error) → yields (deleted api r).1 ≡ true
  unfolding deleted
  deleted-yields (w, none) = refl
  deleted-yields (w, some e) = refl

  one_unread :
      (w : W) (g : Grant) (found : Option Error) (later : W × Result)
      → yields (finalize_grant api w s g found later).1 ≡ false
      → (e : Error) × (found ≡ some e)
        × (yields later.1 ≡ false)
        × ((finalize_grant api w s g found later).0 ≡ later.0)
  unfolding finalize_grant
  one_unread w g none later h = cc (h, deleted-yields (api.delete w g (grant_key s g)))
  one_unread w g (some e) later h = (e, refl, h, refl)

  pub finalize_grants-Unread :
      (w : W) (gs : List Grant)
      → yields (finalize_grants api w s gs).1 ≡ false
      → ((finalize_grants api w s gs).0 ≡ w) × All (Unread w) gs
  unfolding finalize_grants
  finalize_grants-Unread w [] h = (refl, tt)
  finalize_grants-Unread w (g ∷ gs) h =
      let (e, fails, goes, same) =
        one_unread w g (api.get w g (grant_key s g)) (finalize_grants api w s gs) h in
      let (still, unread) = finalize_grants-Unread w gs goes in (same ∙ still, ((e, fails), unread))

  All-Unread :
      (w : W) (cfg : OperatorConfig) (b : Bool) (r : W × Result)
      → (cfg.cluster_type == cluster_type_open_shift) ≡ b
      → r ≡ (if b then finalize_grants api w s (all_grants api) else (w, done))
      → yields r.1 ≡ false
      → (r.0 ≡ w) × (b ≡ true → All (Unread w) (all_grants api))
  All-Unread w cfg true r e h goes =
      let (still, unread) =
        finalize_grants-Unread w (all_grants api)
          (sym (ap (λ (x : W × Result). yields x.1) h) ∙ goes) in
      (ap (λ (x : W × Result). x.0) h ∙ still, λ t. unread)
  All-Unread w cfg false r e h goes = (ap (λ (x : W × Result). x.0) h, λ t. cc t)

  -- Where `finalizeForOpenshift` lets the finalization go on, it deleted nothing, and on OpenShift
  -- the read of each object gave an error, not found or another.
  pub finalize_for_openshift-Unread :
      (w : W) (cfg : OperatorConfig)
      → yields (finalize_for_openshift api w cfg s).1 ≡ false
      → ((finalize_for_openshift api w cfg s).0 ≡ w)
        × ((cfg.cluster_type == cluster_type_open_shift) ≡ true → All (Unread w) (all_grants api))
  unfolding finalize_for_openshift
  finalize_for_openshift-Unread w cfg h =
      All-Unread w cfg (cfg.cluster_type == cluster_type_open_shift)
        (finalize_for_openshift api w cfg s) refl refl h
