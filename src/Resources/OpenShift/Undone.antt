-- ===== src/Resources/OpenShift/Undone.antt =====
-- internal/resources/openshift.go: the finalization on OpenShift ends.
use samba_operator.Base.{
  ◌≡◌, ◌≢◌, refl, sym, ap, ◌∙◌, ℕ, zero, suc, ◌+◌, arith, Bool, true, false, Option, none, some,
  subst, List, [], ◌∷◌, ◌⊎◌, inl, inr, All,
}
use samba_operator.Api.SmbShare.{SmbShare}
use samba_operator.Conf.{OperatorConfig, cluster_type_open_shift}
use samba_operator.Resources.Outcome.{Error, Result, done, requeued, stopped}
use samba_operator.Resources.OpenShift.{
  Grant, GrantApi, grant_key, deleted, finalize_grant, finalize_grants, all_grants,
  finalize_for_openshift,
}

module _ {W : Type 0} (api : GrantApi W) (s : SmbShare) where
  -- Whether the read finds the object: 1 or 0.
  abbrev found_one : Option Error → ℕ
  found_one none = 1
  found_one (some e) = 0

  abbrev pub found : W → List Grant → ℕ
  found w [] = 0
  found w (g ∷ gs) = found_one (api.get w g (grant_key s g)) + found w gs

  -- Calls one after the other, for as long as the last one asks for another.
  again : Bool → W × Result → W × Result → W × Result
  again true more last = more
  again false more last = last

  unfoldable pub rounds : OperatorConfig → ℕ → W → W × Result
  unfolding again
  rounds cfg zero w = finalize_for_openshift api w cfg s
  rounds cfg (suc n) w =
      again (finalize_for_openshift api w cfg s).1.requeue
        (rounds cfg n (finalize_for_openshift api w cfg s).0) (finalize_for_openshift api w cfg s)

  abbrev Ended : W × Result → Type 0
  Ended r = ((r.1 ≡ done) × (found r.0 (all_grants api) ≡ 0)) ⊎ ((e : Error) × (r.1 ≡ stopped e))

  again-Ended_of_true :
      (b : Bool) (more last : W × Result) → b ≡ true → Ended more → Ended (again b more last)
  unfolding again
  again-Ended_of_true true more last h ended = ended
  again-Ended_of_true false more last h ended = cc

  again-Ended_of_false :
      (b : Bool) (more last : W × Result) → b ≡ false → Ended last → Ended (again b more last)
  unfolding again
  again-Ended_of_false false more last h ended = ended
  again-Ended_of_false true more last h ended = cc

  -- A deletion without an error takes the object away, and no other.
  pub record Deletes : Type 0 where
    pub gone :
        (w w' : W) (g : Grant)
        → api.delete w g (grant_key s g) ≡ (w', none)
        → (e : Error) × (api.get w' g (grant_key s g) ≡ some e)
    pub kept :
        (w w' : W) (g h : Grant)
        → api.delete w g (grant_key s g) ≡ (w', none)
        → h ≢ g
        → api.get w' h (grant_key s h) ≡ api.get w h (grant_key s h)

  module _ (laws : Deletes) where
    abbrev Apart : Grant → List Grant → Type 0
    Apart h gs = All (λ g. h ≢ g) gs

    abbrev Once : List Grant → Type 0
    Once [] = Unit
    Once (g ∷ gs) = Apart g gs × Once gs

    -- One object less, and those outside of the list as before.
    abbrev Less : W → List Grant → W → Type 0
    Less w gs w' =
        (found w gs ≡ suc (found w' gs))
        × ((h : Grant) → Apart h gs → api.get w' h (grant_key s h) ≡ api.get w h (grant_key s h))

    abbrev Ends : W → List Grant → W × Result → Type 0
    Ends w gs r =
        ((r ≡ (w, done)) × (found w gs ≡ 0))
        ⊎ ((r.1 ≡ requeued) × Less w gs r.0)
        ⊎ ((e : Error) × (r.1 ≡ stopped e))

    found_kept :
        (w w' : W) (g : Grant) (gs : List Grant)
        → api.delete w g (grant_key s g) ≡ (w', none)
        → All (λ h. g ≢ h) gs
        → found w' gs ≡ found w gs
    found_kept w w' g [] d a = refl
    found_kept w w' g (h ∷ gs) d (ne, a) =
        rw (laws.kept w w' g h d (λ e. ne (sym e)), found_kept w w' g gs d a) refl

    deleted-Ends :
        (w : W) (g : Grant) (gs : List Grant) (p : W × Option Error)
        → api.delete w g (grant_key s g) ≡ p
        → api.get w g (grant_key s g) ≡ none
        → Apart g gs
        → Ends w (g ∷ gs) (deleted api p)
    unfolding deleted
    deleted-Ends w g gs (w', some e) d here a = inr (inr (e, refl))
    deleted-Ends w g gs (w', none) d here a =
        let (e, absent) = laws.gone w w' g d in
        inr (
          inl (
            refl,
            (
              rw (here, absent, found_kept w w' g gs d a) (omega arith),
              λ h (ne, _). laws.kept w w' g h d ne,
            ),
          ))

    later-Ends :
        (w : W) (g : Grant) (gs : List Grant) (e : Error) (r : W × Result)
        → api.get w g (grant_key s g) ≡ some e
        → Apart g gs
        → Ends w gs r
        → Ends w (g ∷ gs) r
    later-Ends w g gs e r absent a (inl (same, empty)) = inl (same, rw absent (omega arith))
    later-Ends w g gs e r absent a (inr (inr stop)) = inr (inr stop)
    later-Ends w g gs e r absent a (inr (inl (again, (less, frame)))) =
        inr (inl (again, (rw (frame g a, absent) (omega arith), λ h (_, b). frame h b)))

    grant-Ends :
        (w : W) (g : Grant) (gs : List Grant) (o : Option Error) (later : W × Result)
        → api.get w g (grant_key s g) ≡ o
        → Apart g gs
        → Ends w gs later
        → Ends w (g ∷ gs) (finalize_grant api w s g o later)
    unfolding finalize_grant
    grant-Ends w g gs none later here a h = deleted-Ends w g gs _ refl here a
    grant-Ends w g gs (some e) later absent a h = later-Ends w g gs e later absent a h

    finalize_grants-Ends :
        (w : W) (gs : List Grant) → Once gs → Ends w gs (finalize_grants api w s gs)
    unfolding finalize_grants
    finalize_grants-Ends w [] u = inl (refl, refl)
    finalize_grants-Ends w (g ∷ gs) (a, u) =
        grant-Ends w g gs (api.get w g (grant_key s g)) (finalize_grants api w s gs) refl a
          (finalize_grants-Ends w gs u)

    all_grants-Once : Once (all_grants api)
    all_grants-Once = (
      ((λ e. cc e), ((λ e. cc e), ((λ e. cc e), ((λ e. cc e), tt)))),
      (
        ((λ e. cc e), ((λ e. cc e), ((λ e. cc e), tt))),
        (((λ e. cc e), ((λ e. cc e), tt)), (((λ e. cc e), tt), (tt, tt))),
      ),
    )

    -- A call finds nothing left, or deletes one object and asks for another call, or fails.
    abbrev Progress : W → W × Result → Type 0
    Progress w r =
        ((r ≡ (w, done)) × (found w (all_grants api) ≡ 0))
        ⊎ ((r.1 ≡ requeued) × (found w (all_grants api) ≡ suc (found r.0 (all_grants api))))
        ⊎ ((e : Error) × (r.1 ≡ stopped e))

    Ends-Progress : (w : W) (r : W × Result) → Ends w (all_grants api) r → Progress w r
    Ends-Progress w r (inl last) = inl last
    Ends-Progress w r (inr (inl (again, (less, frame)))) = inr (inl (again, less))
    Ends-Progress w r (inr (inr stop)) = inr (inr stop)

    undoes :
        (cfg : OperatorConfig) (w : W)
        → cfg.cluster_type ≡ cluster_type_open_shift
        → finalize_for_openshift api w cfg s ≡ finalize_grants api w s (all_grants api)
    unfolding finalize_for_openshift
    undoes cfg w on = simp on refl

    Progress-finalize :
        (cfg : OperatorConfig) (w : W)
        → cfg.cluster_type ≡ cluster_type_open_shift
        → Progress w (finalize_for_openshift api w cfg s)
    Progress-finalize cfg w on =
        subst (Progress w) (sym (undoes cfg w on))
          (Ends-Progress w _ (finalize_grants-Ends w (all_grants api) all_grants-Once))

    rounds-Ended :
        (cfg : OperatorConfig) (n : ℕ) (w : W)
        → cfg.cluster_type ≡ cluster_type_open_shift
        → found w (all_grants api) ≡ n
        → Progress w (finalize_for_openshift api w cfg s)
        → Ended (rounds cfg n w)
    unfolding rounds
    rounds-Ended cfg zero w on size (inl (same, empty)) =
        inl (ap (λ r. r.1) same, ap (λ r. found r.0 (all_grants api)) same ∙ empty)
    rounds-Ended cfg zero w on size (inr (inl (more, less))) = absurd (omega arith)
    rounds-Ended cfg zero w on size (inr (inr stop)) = inr stop
    rounds-Ended cfg (suc n) w on size (inl (same, empty)) = absurd (omega arith)
    rounds-Ended cfg (suc n) w on size (inr (inl (more, less))) =
        let w' = (finalize_for_openshift api w cfg s).0 in
        again-Ended_of_true _ _ _ (ap (λ r. r.requeue) more)
          (rounds-Ended cfg n w' on (omega arith) (Progress-finalize cfg w' on))
    rounds-Ended cfg (suc n) w on size (inr (inr (e, stop))) =
        again-Ended_of_false _ _ _ (ap (λ r. r.requeue) stop) (inr (e, stop))

    -- On OpenShift, where a deletion without an error takes its object away and no other, as many
    -- further calls as objects are found are enough: the last call is done and finds nothing left,
    -- or a deletion failed.
    pub finalize_for_openshift_ends :
        (cfg : OperatorConfig) (w : W)
        → cfg.cluster_type ≡ cluster_type_open_shift
        → (((rounds cfg (found w (all_grants api)) w).1 ≡ done)
            × (found (rounds cfg (found w (all_grants api)) w).0 (all_grants api) ≡ 0))
          ⊎ ((e : Error) × ((rounds cfg (found w (all_grants api)) w).1 ≡ stopped e))
    finalize_for_openshift_ends cfg w on =
        rounds-Ended cfg (found w (all_grants api)) w on refl (Progress-finalize cfg w on)
