-- ===== src/Planner/Configuration/Applied.antt =====
-- What the loop over custom options and the two share values do to a map of options.
use samba_operator.Base.{String, ◌≡◌, refl, ◌≢◌, ◌==◌, eq_iff, eq_refl, Bool, true, false}
use samba_operator.Base.{
  Option, none, some, [], ◌∷◌, arith, if◌then◌else◌, All, Bool-cases, inl, inr, or_zero, ◌!=◌,
  Option-cases, ap, ◌⊎◌,
}
use samba_operator.Base.Dict.{Dict, lookup, insert, lookup-insert, NodupKeys}
use samba_operator.Smbcc.{SmbOptions}
use samba_operator.Planner.Configuration.{apply_configs, set_option}

-- Every custom option has its value.
abbrev pub Applied : Dict String → SmbOptions → Type 0
Applied cs o = All (λ ((k, v) : String × String). lookup k o ≡ some v) cs

-- The values of the first map, and the second map's elsewhere.
abbrev pub override : Option String → Option String → Option String
override none old = old
override (some v) old = some v

pub apply_configs_settled :
    (c : Bool) (o : SmbOptions) (cs : Dict String) → Applied cs o → apply_configs c o cs ≡ (c, o)
unfolding apply_configs
apply_configs_settled c o [] h = refl
apply_configs_settled c o ((k, v) ∷ cs) h = ground (arith, eq_refl v, apply_configs_settled c o cs)

-- One round of the loop: the option has its value already, or it is written.
round_cases :
    (c : Bool) (o : SmbOptions) (k v : String) (cs : Dict String)
    → (lookup k o ≡ some v) × (apply_configs c o ((k, v) ∷ cs) ≡ apply_configs c o cs)
      ⊎ (apply_configs c o ((k, v) ∷ cs) ≡ apply_configs true (insert k v o) cs)
unfolding apply_configs
round_cases c o k v cs = elim (Option-cases (lookup k o)) [
  | inl absent ↦ inr (ground arith)
  | inr (w, found) ↦ elim (Bool-cases (w == v)) [
    | inl same ↦ inl (rw found (ap some ((eq_iff w v).0 same)), ground arith)
    | inr other ↦ inr (ground arith)
  ]
]

apply_configs-true : (cs : Dict String) (o : SmbOptions) → (apply_configs true o cs).0 ≡ true
unfolding apply_configs
apply_configs-true [] o = refl
apply_configs-true ((k, v) ∷ cs) o = apply_configs-true cs _

-- The flag only ever goes up, and where it stays down nothing was written.
pub apply_configs_unchanged :
    (c : Bool) (o : SmbOptions) (cs : Dict String)
    → (apply_configs c o cs).0 ≡ false
    → (c ≡ false) × ((apply_configs c o cs).1 ≡ o) × Applied cs o
apply_configs_unchanged c o [] h = unfold apply_configs in (h, refl, tt)
apply_configs_unchanged c o ((k, v) ∷ cs) h = elim (round_cases c o k v cs) [
  | inl (found, e) ↦ rw e (ground (arith, apply_configs_unchanged c o cs (rw (← e) h)))
  | inr e ↦ cc (apply_configs-true cs (insert k v o), e)
]

pub lookup-apply_configs :
    (c : Bool) (o : SmbOptions) (cs : Dict String) (j : String)
    → NodupKeys cs
    → lookup j (apply_configs c o cs).1 ≡ override (lookup j cs) (lookup j o)
lookup-apply_configs c o [] j u = unfold apply_configs lookup in refl
lookup-apply_configs c o ((k, v) ∷ cs) j (fresh, u) = elim (round_cases c o k v cs) [
  | inl (found, e) ↦
      rw e (rw (lookup-apply_configs c o cs j u) (unfold lookup in ground (arith, eq_iff k j)))
  | inr e ↦ rw e (
      rw (lookup-apply_configs true (insert k v o) cs j u, lookup-insert)
        (unfold lookup in ground (arith, eq_iff k j)))
]

Applied-of_lookup :
    (cs : Dict String) (o : SmbOptions)
    → NodupKeys cs
    → ((k v : String) → lookup k cs ≡ some v → lookup k o ≡ some v)
    → Applied cs o
unfolding lookup
Applied-of_lookup [] o u h = tt
Applied-of_lookup ((k, v) ∷ cs) o (fresh, u) h = (
  h k v (ground (arith, eq_refl k)),
  Applied-of_lookup cs o u (λ j w e. h j w (ground (arith, eq_iff k j))),
)

-- After the loop every custom option has its value.
pub Applied-apply_configs :
    (c : Bool) (o : SmbOptions) (cs : Dict String)
    → NodupKeys cs
    → Applied cs (apply_configs c o cs).1
Applied-apply_configs c o cs u =
    Applied-of_lookup cs _ u (λ k v e. rw (lookup-apply_configs c o cs k u) (rw e))

-- A value that is no custom option's may be written without harm.
pub Applied-insert :
    (k v : String) (cs : Dict String) (o : SmbOptions)
    → ((w : String) → lookup k cs ≡ some w → w ≡ v)
    → NodupKeys cs
    → Applied cs o
    → Applied cs (insert k v o)
unfolding lookup
Applied-insert k v [] o h u a = tt
Applied-insert k v ((j, w) ∷ cs) o h (fresh, u) a = (
  rw (lookup-insert j k v o) (ground (arith, eq_iff k j, eq_iff j k, h w)),
  Applied-insert k v cs o (λ x e. h x (ground (arith, eq_iff j k))) u a.1,
)

pub lookup-Applied :
    (k w : String) (cs : Dict String) (o : SmbOptions)
    → Applied cs o
    → lookup k cs ≡ some w
    → lookup k o ≡ some w
unfolding lookup
lookup-Applied k w [] o a e = cc
lookup-Applied k w ((j, v) ∷ cs) o a e = ground (arith, eq_iff j k, lookup-Applied k w cs o a.1)

module _ (k v : String) (o : SmbOptions) where
  pub set_option_settled : lookup k o ≡ some v → set_option k v o ≡ (false, o)
  unfolding set_option
  set_option_settled h = ground (arith, eq_refl v)

  module _ (given : v ≢ "") where
    pub set_option_unchanged :
        (set_option k v o).0 ≡ false → (lookup k o ≡ some v) × ((set_option k v o).1 ≡ o)
    unfolding set_option
    set_option_unchanged h = elim (Option-cases (lookup k o)) [
      | inl absent ↦ ground (arith, eq_iff "" v)
      | inr (w, found) ↦ ground (arith, eq_iff w v)
    ]

    pub lookup-set_option :
        (j : String) → lookup j (set_option k v o).1 ≡ (if k == j then some v else lookup j o)
    unfolding set_option
    lookup-set_option j = elim (Option-cases (lookup k o)) [
      | inl absent ↦ ground (arith, eq_iff "" v, lookup-insert j k v o)
      | inr (w, found) ↦ ground (arith, eq_iff w v, eq_iff k j, lookup-insert j k v o)
    ]

    pub Applied-set_option :
        (cs : Dict String)
        → ((w : String) → lookup k cs ≡ some w → w ≡ v)
        → NodupKeys cs
        → Applied cs o
        → Applied cs (set_option k v o).1
    unfolding set_option
    Applied-set_option cs h u a = elim (Bool-cases (or_zero (lookup k o) != v)) [
      | inl e ↦ rw e (Applied-insert k v cs o h u a)
      | inr e ↦ rw e a
    ]
