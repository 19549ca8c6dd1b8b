-- ===== src/Resources/Namespaces/Labelled.antt =====
-- The labels that a namespace has after `getOrUpdateNamespaceOf`.
use samba_operator.Base.{
  ◌≡◌, refl, sym, ap, ◌∙◌, arith, String, eq_iff, eq_refl, Bool, true, false, Option, none, some,
  [], ◌∷◌, Bool-cases, subst, ◌⊎◌, inl, inr,
}
use samba_operator.Base.Dict.{Dict, lookup, insert, NodupKeys, lookup-insert}
use samba_operator.Base.Panics.{Run, returns, panics}
use samba_operator.Planner.Configuration.Applied.{override}
use samba_operator.Api.SmbShare.{SmbShare}
use samba_operator.Resources.Outcome.{Error}
use samba_operator.Resources.Kube.{got}
use samba_operator.Resources.Attempt.{Attempt, gives}
use samba_operator.Resources.Objects.{Namespace}
use samba_operator.Resources.Platform.{Platform}
use samba_operator.Resources.Namespaces.{
  namespace_labels, has_label, has_labels, or_empty, has_namespace_labels, put_labels, put_all,
  add_namespace_labels, wanted_namespace, written_namespace, write_namespace, label_namespace,
}

namespace_labels-NodupKeys : NodupKeys namespace_labels
unfolding lookup
namespace_labels-NodupKeys = (refl, (refl, (refl, (refl, (refl, tt)))))

lookup-put_labels :
    (j : String) (want m : Dict String)
    → NodupKeys want
    → lookup j (put_labels want m) ≡ override (lookup j want) (lookup j m)
unfolding lookup put_labels
lookup-put_labels j [] m u = refl
lookup-put_labels j ((k, v) ∷ want) m (fresh, u) =
    ground (arith, eq_iff k j, lookup-put_labels j want (insert k v m) u, lookup-insert j k v m)

-- Every wanted label is there.
abbrev Has : Dict String → Dict String → Type 0
Has want m = (j v : String) → lookup j want ≡ some v → lookup j m ≡ some v

has_label-true :
    (o : Option String) (v : String) (rest : Bool)
    → has_label o v rest ≡ true
    → (o ≡ some v) × (rest ≡ true)
unfolding has_label
has_label-true none v rest h = cc
has_label-true (some c) v rest h = ground (arith, eq_iff c v)

has_labels-Has : (want m : Dict String) → has_labels want m ≡ true → Has want m
unfolding has_labels lookup
has_labels-Has [] m h j v at = cc
has_labels-Has ((k, w) ∷ want) m h j v at =
    let (here, rest) = has_label-true (lookup k m) w (has_labels want m) h in
    let later = has_labels-Has want m rest j v in ground (arith, eq_iff k j, here, later, at)

Has-has_labels : (want m : Dict String) → NodupKeys want → Has want m → has_labels want m ≡ true
unfolding has_labels lookup has_label
Has-has_labels [] m u h = refl
Has-has_labels ((k, w) ∷ want) m (fresh, u) h =
    let here : lookup k m ≡ some w = h k w (rw (eq_refl k) refl) in
    let rest : Has want m = λ j v at. h j v (ground (arith, eq_iff k j, at, fresh)) in
    rw (here, eq_refl w) (Has-has_labels want m u rest)

-- The labels of a namespace are the wanted ones, and else those that it had.
abbrev pub Labelled : Namespace → Namespace → Type 0
Labelled old ns =
    (has_namespace_labels ns ≡ true)
    × ((j : String)
        → lookup j (or_empty ns.labels)
          ≡ override (lookup j namespace_labels) (lookup j (or_empty old.labels)))

override-some : (o p : Option String) → ((v : String) → o ≡ some v → p ≡ some v) → p ≡ override o p
override-some none p h = refl
override-some (some v) p h = h v refl

override-keeps : (o p : Option String) (v : String) → o ≡ some v → override o p ≡ some v
override-keeps (some w) p v h = h
override-keeps none p v h = cc

Labelled-self : (ns : Namespace) → has_namespace_labels ns ≡ true → Labelled ns ns
unfolding has_namespace_labels
Labelled-self ns h = (
  h,
  λ j.
      override-some (lookup j namespace_labels) (lookup j (or_empty ns.labels))
        (λ v at. has_labels-Has namespace_labels (or_empty ns.labels) h j v at),
)

put-Labelled :
    (old : Namespace) (m : Dict String)
    → old.labels ≡ some m
    → (ns : Namespace) → ns.labels ≡ some (put_labels namespace_labels m)
    → Labelled old ns
unfolding has_namespace_labels
put-Labelled old m had ns has =
    let at : (j : String)
        → lookup j (put_labels namespace_labels m)
          ≡ override (lookup j namespace_labels) (lookup j m) =
      λ j. lookup-put_labels j namespace_labels m namespace_labels-NodupKeys in
    (
      rw has (
          Has-has_labels namespace_labels (put_labels namespace_labels m) namespace_labels-NodupKeys
            (λ j v wanted.
              at j ∙ override-keeps (lookup j namespace_labels) (lookup j m) v wanted)),
      λ j. rw (has, had) (at j),
    )

module _ {W : Type 0} (p : Platform W) where
  added-Labelled :
      (s : SmbShare) (old ns : Namespace) (labels : Option (Dict String))
      → old.labels ≡ labels
      → put_all (wanted_namespace s old) labels ≡ returns ns
      → Labelled old ns × (ns.annotations ≡ [])
  unfolding put_all
  added-Labelled s old ns none had h = cc
  added-Labelled s old ns (some m) had h =
      let same : record (wanted_namespace s old) { labels = some (put_labels namespace_labels m) }
          ≡ ns =
        cc h in
      (
        put-Labelled old m had ns (sym (ap (λ n. n.labels) same)),
        sym (ap (λ n. n.annotations) same),
      )

  written_gives :
      (ns ns' : Namespace) (r : W × Option Error) (w' : W) (changed : Bool)
      → written_namespace p ns r ≡ (w', gives (changed, ns'))
      → (ns' ≡ ns) × (r ≡ (w', none)) × (changed ≡ true)
  unfolding written_namespace
  written_gives ns ns' (w, none) w' changed h = (cc, cc, cc)
  written_gives ns ns' (w, some e) w' changed h = cc

  write_gives :
      (w w' : W) (s : SmbShare) (old ns : Namespace) (changed : Bool) (r : Run Namespace)
      → put_all (wanted_namespace s old) old.labels ≡ r
      → write_namespace p w r ≡ (w', gives (changed, ns))
      → Labelled old ns
        × (ns.annotations ≡ [])
        × (p.namespaces.update w ns ≡ (w', none))
        × (changed ≡ true)
  unfolding write_namespace
  write_gives w w' s old ns changed panics e h = cc
  write_gives w w' s old ns changed (returns made) e h =
      let (same, wrote, flag) = written_gives made ns (p.namespaces.update w made) w' changed h in
      let (labelled, bare) = added-Labelled s old made old.labels refl e in
      (
        subst (λ n. Labelled old n) (sym same) labelled,
        ap (λ n. n.annotations) same ∙ bare,
        subst (λ n. p.namespaces.update w n ≡ (w', none)) (sym same) wrote,
        flag,
      )

  -- What happens to a namespace that was read: it has all of the wanted labels, and nothing is
  -- written, or it is written with them and without annotations.
  abbrev pub Decided : W → Namespace → W → Bool → Namespace → Type 0
  Decided w old w' changed ns =
      ((changed ≡ false) × (w' ≡ w) × (ns ≡ old))
      ⊎ ((changed ≡ true) × (p.namespaces.update w ns ≡ (w', none)) × (ns.annotations ≡ []))

  -- Where `getOrUpdateNamespaceOf` gives no error, the namespace that it returns has the labels
  -- that OpenShift asks for, and of all others those that the namespace had. It is the namespace
  -- that was read, or what was written, and then it has lost its annotations. A call that reads
  -- it again writes nothing.
  pub label_namespace-Labelled :
      (w w' : W) (s : SmbShare) (old ns : Namespace) (changed : Bool)
      → label_namespace p w s (got old) ≡ (w', gives (changed, ns))
      → Labelled old ns
        × Decided w old w' changed ns
        × (label_namespace p w' s (got ns) ≡ (w', gives (false, ns)))
  unfolding label_namespace add_namespace_labels
  label_namespace-Labelled w w' s old ns changed h = elim (Bool-cases (has_namespace_labels old)) [
    | inl has ↦
        let read : ◌≡◌ {A = W × Attempt (Bool × Namespace)} (w, gives (false, old))
            (w', gives (changed, ns)) =
          cc (h, has) in
        let same : ns ≡ old = cc read in
        (
          subst (λ n. Labelled old n) (sym same) (Labelled-self old has),
          inl (cc read, cc read, same),
          rw (ap has_namespace_labels same ∙ has) refl,
        )
    | inr lacks ↦
        let h' : write_namespace p w (put_all (wanted_namespace s old) old.labels)
            ≡ (w', gives (changed, ns)) =
          ground (arith, h, lacks) in
        let (labelled, bare, wrote, flag) =
          write_gives w w' s old ns changed (put_all (wanted_namespace s old) old.labels) refl h' in
        (labelled, inr (flag, wrote, bare), rw (labelled.0) refl)
  ]
