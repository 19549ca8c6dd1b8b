-- ===== src/Resources/Backend/Recorded.antt =====
-- What the annotation of the backend guards.
use samba_operator.Base.{
  ◌≡◌, refl, sym, ap, subst, ◌∙◌, ◌↔◌, ◌==◌, eq_iff, true, false, Option, none, some, arith,
}
use samba_operator.Base.{inl, inr, or_zero, Bool-cases}
use samba_operator.Base.Dict.{lookup-insert_self}
use samba_operator.Planner.Instance.{Planner}
use samba_operator.Planner.Properties.{is_clustered}
use samba_operator.Resources.Outcome.{Error, Result, done, requeued, yields}
use samba_operator.Resources.Kube.{Client}
use samba_operator.Resources.Backend.{
  server_backend, clustered_backend, standard_backend, backend_of, wanted_backend, annotated,
  validate_backend, update_backend, settle_backend, update_result,
}

-- A share passes exactly where the recorded backend is the one of its availability mode.
pub validate_backend_iff :
    (pl : Planner) → (validate_backend pl ≡ done) ↔ (backend_of pl.smb_share ≡ wanted_backend pl)
unfolding validate_backend wanted_backend
validate_backend_iff pl = ground (
  arith,
  eq_iff (backend_of pl.smb_share) clustered_backend,
  eq_iff (backend_of pl.smb_share) standard_backend,
)

backend_of-annotated : (pl : Planner) → backend_of (annotated pl) ≡ wanted_backend pl
unfolding annotated
backend_of-annotated pl =
    ap or_zero
      (lookup-insert_self server_backend (wanted_backend pl) pl.smb_share.metadata.annotations)

is_clustered-annotated :
    (pl : Planner) → is_clustered (record pl { smb_share = annotated pl }) ≡ is_clustered pl
unfolding is_clustered annotated
is_clustered-annotated pl = refl

wanted_backend-annotated :
    (pl : Planner) → wanted_backend (record pl { smb_share = annotated pl }) ≡ wanted_backend pl
unfolding wanted_backend
wanted_backend-annotated pl = ground (arith, is_clustered-annotated pl)

wanted_backend_given : (pl : Planner) → (wanted_backend pl == "") ≡ false
unfolding wanted_backend
wanted_backend_given pl = elim (Bool-cases (is_clustered pl)) [
  | inl c ↦ rw c refl
  | inr c ↦ rw c refl
]

validate-annotated :
    (pl : Planner) → validate_backend (record pl { smb_share = annotated pl }) ≡ done
validate-annotated pl =
    (validate_backend_iff (record pl { smb_share = annotated pl })).1
      (backend_of-annotated pl ∙ sym (wanted_backend-annotated pl))

update_result-yields : (err : Option Error) → yields (update_result err) ≡ true
unfolding update_result
update_result-yields none = refl
update_result-yields (some e) = refl

validated : (pl : Planner) → yields (validate_backend pl) ≡ false → validate_backend pl ≡ done
unfolding validate_backend
validated pl h = ground arith

module _ {W : Type 0} (client : Client W) where
  update_backend-yields : (w : W) (pl : Planner) → yields (update_backend client w pl).2 ≡ true
  unfolding update_backend
  update_backend-yields w pl = update_result-yields (client.shares.update w (annotated pl)).1

  settle_goes :
      (w : W) (pl : Planner) (o : W × Planner × Result)
      → o ≡ (w, pl, validate_backend pl)
      → yields o.2 ≡ false
      → (o.0 ≡ w) × (o.1 ≡ pl) × (backend_of pl.smb_share ≡ wanted_backend pl)
  settle_goes w pl o e h = (
    ap (λ (x : W × Planner × Result). x.0) e,
    ap (λ (x : W × Planner × Result). x.1) e,
    (validate_backend_iff pl).0
        (validated pl (sym (ap (λ (x : W × Planner × Result). yields x.2) e) ∙ h)),
  )

  -- Where nothing is left to do about the backend, the recorded one is that of the mode.
  pub settle_backend_kept :
      (w : W) (pl : Planner)
      → yields (settle_backend client w pl).2 ≡ false
      → ((settle_backend client w pl).0 ≡ w)
        × ((settle_backend client w pl).1 ≡ pl)
        × (backend_of pl.smb_share ≡ wanted_backend pl)
  unfolding settle_backend
  settle_backend_kept w pl h = elim (Bool-cases (backend_of pl.smb_share == "")) [
    | inl unset ↦
        let e : settle_backend client w pl ≡ update_backend client w pl = rw unset refl in
        absurd (cc (h, e, update_backend-yields w pl))
    | inr given ↦
        let e : settle_backend client w pl ≡ (w, pl, validate_backend pl) = rw given refl in
        settle_goes w pl (settle_backend client w pl) e h
  ]

  settle_valid :
      (w : W) (pl : Planner)
      → (backend_of pl.smb_share == "") ≡ false
      → validate_backend pl ≡ done
      → settle_backend client w pl ≡ (w, pl, done)
  unfolding settle_backend
  settle_valid w pl given valid = rw given (ap (λ r. (w, pl, r)) valid)

  -- Where the recorded backend is that of the mode, nothing is done.
  pub settle_backend_valid :
      (w : W) (pl : Planner)
      → backend_of pl.smb_share ≡ wanted_backend pl
      → settle_backend client w pl ≡ (w, pl, done)
  settle_backend_valid w pl h =
      settle_valid w pl (rw h (wanted_backend_given pl)) ((validate_backend_iff pl).1 h)

  settle_recorded :
      (w : W) (pl : Planner)
      → settle_backend client w (record pl { smb_share = annotated pl })
        ≡ (w, record pl { smb_share = annotated pl }, done)
  settle_recorded w pl =
      settle_valid w (record pl { smb_share = annotated pl })
        (rw (backend_of-annotated pl) (wanted_backend_given pl)) (validate-annotated pl)

  requeued_by :
      (w w' : W) (pl pl' : Planner)
      → settle_backend client w pl ≡ (w', pl', requeued)
      → pl' ≡ record pl { smb_share = annotated pl }
  unfolding settle_backend update_backend validate_backend
  requeued_by w w' pl pl' h = ground arith

  -- Once a backend is recorded, nothing is left to do about it: no second write is made.
  pub settle_backend_converges :
      (w w' w'' : W) (pl pl' : Planner)
      → settle_backend client w pl ≡ (w', pl', requeued)
      → settle_backend client w'' pl' ≡ (w'', pl', done)
  settle_backend_converges w w' w'' pl pl' h =
      subst (λ p. settle_backend client w'' p ≡ (w'', p, done)) (sym (requeued_by w w' pl pl' h))
        (settle_recorded w'' pl)
