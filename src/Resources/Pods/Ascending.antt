-- ===== src/Resources/Pods/Ascending.antt =====
-- internal/resources/pods.go: `getJoinSources` never panics in the mode that uses it, and its
-- volumes are numbered in the order of the sources.
use samba_operator.Base.{
  ◌≡◌, refl, ap, ◌∙◌, ℕ, suc, ◌≤◌, ◌+◌, arith, List, [], ◌∷◌, Option, none, some, All, ne→eq-false,
  ne_of_eq-false, inl, inr, Option-cases,
}
use samba_operator.Base.Numeral.{number_from}
use samba_operator.Base.Panics.{Run, returns}
use samba_operator.Api.SmbSecurityConfig.{
  SmbSecurityConfig, SmbSecurityJoinSpec, SmbSecurityUserJoinSpec,
}
use samba_operator.Planner.Instance.{Planner}
use samba_operator.Planner.Properties.{security_mode, ad_mode}
use samba_operator.Resources.Volumes.{VolMount, tag_config}
use samba_operator.Resources.Volumes.Sources.{
  item, join_json_file_volume_and_mount, join_json_volume_suffix,
}
use samba_operator.Resources.Volumes.Distinct.{Paired, Differs, Distinct}
use samba_operator.Resources.Pods.Joins.{JoinSources, collect_joins, with_join, get_join_sources}
use samba_operator.Resources.Pods.Names.{kind_number, kind_number-join, number_from-join}

abbrev pub IsJoin : VolMount → Type 0
IsJoin v = Paired v × (kind_number v.volume.name ≡ 2) × (v.tag ≡ tag_config)

abbrev index : VolMount → ℕ
index v = number_from 0 v.volume.name

-- Volumes of join data with growing indices, the first of them at least `k`.
abbrev pub Ascending : ℕ → List VolMount → Type 0
Ascending k [] = Unit
Ascending k (v ∷ vs) = IsJoin v × (k ≤ index v) × Ascending (suc (index v)) vs

Ascending-suc : (k : ℕ) (vs : List VolMount) → Ascending (suc k) vs → Ascending k vs
Ascending-suc k [] h = tt
Ascending-suc k (v ∷ vs) (j, le, h) = (j, omega arith, h)

pub Ascending-All : (k : ℕ) (vs : List VolMount) → Ascending k vs → All IsJoin vs
Ascending-All k [] h = tt
Ascending-All k (v ∷ vs) (j, _, h) = (j, Ascending-All (suc (index v)) vs h)

Ascending-Differs :
    (k : ℕ) (v : VolMount) (vs : List VolMount)
    → suc (index v) ≤ k
    → Ascending k vs
    → All (Differs v) vs
Ascending-Differs k v [] le h = tt
Ascending-Differs k v (w ∷ vs) le (j, below, h) = (
  ne→eq-false v.volume.name w.volume.name
      λ e. let same : index v ≡ index w = ap (number_from 0) e in omega arith,
  Ascending-Differs (suc (index w)) v vs (omega arith) h,
)

pub Ascending-Distinct : (k : ℕ) (vs : List VolMount) → Ascending k vs → Distinct vs
Ascending-Distinct k [] h = tt
Ascending-Distinct k (v ∷ vs) (j, _, h) =
    (Ascending-Differs _ v vs (omega arith) h, Ascending-Distinct (suc (index v)) vs h)

module _ (pl : Planner) (c : SmbSecurityConfig) (has : pl.security_config ≡ some c) where
  -- The sources from an index on are those that the item at the index reads.
  abbrev Suffix : ℕ → List SmbSecurityJoinSpec → Type 0
  Suffix i rest = (k : ℕ) → item c.spec.join_sources (i + k) ≡ item rest k

  abbrev Collects : ℕ → Run JoinSources → Type 0
  Collects i m = (src : JoinSources) × (m ≡ returns src) × Ascending i src.volumes

  credential_volume :
      (i : ℕ) (js : SmbSecurityJoinSpec) (u : SmbSecurityUserJoinSpec)
      → item c.spec.join_sources i ≡ some js
      → js.user_join ≡ some u
      → (v : VolMount) × (join_json_file_volume_and_mount pl i ≡ returns v)
        × IsJoin v
        × (index v ≡ i)
  unfolding join_json_file_volume_and_mount join_json_volume_suffix
  credential_volume i js u at joins = rw has (
      rw at
        (rw joins ((_, refl, (refl, kind_number-join "join-data" i, refl), number_from-join i))))

  with_join-Collects :
      (i : ℕ) (js : SmbSecurityJoinSpec) (later : Run JoinSources)
      (o : Option SmbSecurityUserJoinSpec)
      → item c.spec.join_sources i ≡ some js
      → js.user_join ≡ o
      → Collects (suc i) later
      → Collects i (with_join pl i o later)
  unfolding with_join
  with_join-Collects i js later none at joins (src, e, h) = (src, e, Ascending-suc i _ h)
  with_join-Collects i js later (some u) at joins (src, e, h) =
      let (v, made, j, at_i) = credential_volume i js u at joins in
      rw made (rw e (_, refl, (j, omega arith, rw at_i h)))

  collect_joins-Collects :
      (i : ℕ) (rest : List SmbSecurityJoinSpec)
      → Suffix i rest
      → Collects i (collect_joins pl i rest)
  unfolding collect_joins item
  collect_joins-Collects i [] at = (_, refl, tt)
  collect_joins-Collects i (js ∷ rest) at =
      with_join-Collects i js _ js.user_join (ap (item c.spec.join_sources) (omega arith) ∙ at 0)
        refl
        (collect_joins-Collects (suc i) rest
          λ k. ap (item c.spec.join_sources) (omega arith) ∙ at (suc k))

pub get_join_sources-Ascending :
    (pl : Planner)
    → security_mode pl ≡ ad_mode
    → (src : JoinSources) × (get_join_sources pl ≡ returns src) × Ascending 0 src.volumes
unfolding get_join_sources security_mode
get_join_sources-Ascending pl ad = elim (Option-cases pl.security_config) [
  | inl nil ↦ absurd (ne_of_eq-false "user" "active-directory" refl (rw nil at ad))
  | inr (c, has) ↦ simp has (
      collect_joins-Collects pl c has 0 c.spec.join_sources
        λ k. ap (item c.spec.join_sources) (omega arith))
]
