-- ===== src/Resources/Sizes/Grows.antt =====
-- internal/resources/smbshare.go: a stateful set only grows, and is settled once it has its size.
use samba_operator.Base.{
  ◌≡◌, refl, sym, ap, ◌∙◌, arith, Bool, true, false, if◌then◌else◌, Option, none, some, inl, inr,
  Bool-cases,
}
use samba_operator.Base.Int.{ℤ, pos, negsuc, ltb_int}
use samba_operator.Resources.Outcome.{Error}
use samba_operator.Resources.Attempt.{gives}
use samba_operator.Resources.Objects.{Workload}
use samba_operator.Resources.Sizes.{update_stateful_set_size, resized}

-- `a <= b`
abbrev pub le_int : ℤ → ℤ → Bool
le_int a b = if ltb_int b a then false else true

le_int_refl : (a : ℤ) → le_int a a ≡ true
le_int_refl (pos a) = ground arith
le_int_refl (negsuc a) = ground arith

le_int_of_lt : (a b : ℤ) → ltb_int a b ≡ true → le_int a b ≡ true
le_int_of_lt (pos a) (pos b) h = ground arith
le_int_of_lt (pos a) (negsuc b) h = cc
le_int_of_lt (negsuc a) (pos b) h = refl
le_int_of_lt (negsuc a) (negsuc b) h = ground arith

ltb_int_irrefl : (a : ℤ) → ltb_int a a ≡ false
ltb_int_irrefl (pos a) = ground arith
ltb_int_irrefl (negsuc a) = ground arith

abbrev sized : Workload → ℤ → Workload
sized obj size = record obj { replicas = some size }

module _ {W : Type 0} (update : W → Workload → W × Option Error) where
  pub settled :
      (w : W) (obj : Workload) (size r : ℤ)
      → obj.replicas ≡ some r
      → ltb_int r size ≡ false
      → update_stateful_set_size update w obj size ≡ (w, gives (false, obj))
  unfolding update_stateful_set_size
  settled w obj size r has big = simp (has, big) refl

  writes :
      (w : W) (obj : Workload) (size r : ℤ)
      → obj.replicas ≡ some r
      → ltb_int r size ≡ true
      → update_stateful_set_size update w obj size
        ≡ resized update (sized obj size) (update w (sized obj size))
  unfolding update_stateful_set_size
  writes w obj size r has small = simp (has, small) refl

  resized-gives :
      (obj obj' : Workload) (p : W × Option Error) (w' : W) (b : Bool)
      → resized update obj p ≡ (w', gives (b, obj'))
      → obj ≡ obj'
  unfolding resized
  resized-gives obj obj' (w, none) w' b h = cc
  resized-gives obj obj' (w, some e) w' b h = cc

  -- Where updateStatefulSetSize gives no error, the stateful set has at least as many replicas as
  -- before and as asked for, and a second call writes nothing.
  pub update_stateful_set_size_grows :
      (w w' : W) (obj obj' : Workload) (size r : ℤ) (changed : Bool)
      → obj.replicas ≡ some r
      → update_stateful_set_size update w obj size ≡ (w', gives (changed, obj'))
      → (r' : ℤ) × (obj'.replicas ≡ some r')
        × (le_int r r' ≡ true)
        × (le_int size r' ≡ true)
        × (update_stateful_set_size update w' obj' size ≡ (w', gives (false, obj')))
  update_stateful_set_size_grows w w' obj obj' size r changed has h =
      elim (Bool-cases (ltb_int r size)) [
        | inl small ↦
            let same =
              resized-gives (sized obj size) obj' (update w (sized obj size)) w' changed
                (sym (writes w obj size r has small) ∙ h) in
            let at : obj'.replicas ≡ some size = sym (ap (λ o. o.replicas) same) in
            (
              size,
              at,
              le_int_of_lt r size small,
              le_int_refl size,
              settled w' obj' size size at (ltb_int_irrefl size),
            )
        | inr big ↦
            let same : obj ≡ obj' = cc (settled w obj size r has big, h) in
            let at : obj'.replicas ≡ some r = sym (ap (λ o. o.replicas) same) ∙ has in
            (r, at, le_int_refl r, rw big refl, settled w' obj' size r at big)
      ]
