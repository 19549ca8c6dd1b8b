-- ===== src/Planner/Configuration/Group.antt =====
-- The configuration of a server group over its life: shares of the group are updated and pruned
-- in any order, starting at the empty configuration.
use samba_operator.Base.{◌≡◌, refl, sym, ap, subst, ◌∙◌, ◌≢◌, ◌==◌, eq_iff, false, ◌||◌}
use samba_operator.Base.{Option, none, some, List, [], ◌∷◌, ◌++◌, arith, is_some, contains}
use samba_operator.Base.Dict.{lookup}
use samba_operator.Base.Panics.{returns}
use samba_operator.Smbcc.{SambaContainerConfig, ConfigSection, Key, new}
use samba_operator.Planner.Instance.{Planner}
use samba_operator.Planner.Configuration.{update, prune, share_name, instance_id, Change, take_out}
use samba_operator.Planner.Configuration.Section.{listed}
use samba_operator.Planner.Configuration.Frame.{
  update_defines, update_keeps_configs, update_listing,
}
use samba_operator.Planner.Configuration.Prune.{
  Nodup, shares_of, shares_of-without, contains-take_out, take_out-Nodup, prune_shares,
  prune_configs, prune_own_section,
}

-- The configurations that calls for shares of the group `id` lead to.
pub data Reached (id : Key) : SambaContainerConfig → Type 0 where
  start : Reached id new
  updated :
      (pl : Planner) (s : SambaContainerConfig) (r : Change)
      → Reached id s
      → instance_id pl ≡ id
      → update pl s ≡ returns r
      → Reached id r.1
  pruned :
      (pl : Planner) (s : SambaContainerConfig)
      → Reached id s
      → instance_id pl ≡ id
      → Reached id (prune pl s).1

pub record Consistent (id : Key) (s : SambaContainerConfig) : Type 0 where
  pub only : (k : Key) → k ≢ id → lookup k s.configs ≡ none
  pub listing :
      (k : Key) → contains (shares_of (lookup id s.configs)) k ≡ is_some (lookup k s.shares)
  pub nodup : Nodup (shares_of (lookup id s.configs))

contains-append :
    (xs : List Key) (k j : Key) → contains (xs ++ k ∷ []) j ≡ (k == j || contains xs j)
contains-append [] k j = ground arith
contains-append (x ∷ xs) k j = ground (arith, contains-append xs k j)

append-Nodup : (xs : List Key) (k : Key) → contains xs k ≡ false → Nodup xs → Nodup (xs ++ k ∷ [])
append-Nodup [] k h u = (refl, tt)
append-Nodup (x ∷ xs) k h (fresh, u) = (
  ground (arith, eq_iff x k, eq_iff k x, contains-append xs k x),
  append-Nodup xs k (ground arith) u,
)

contains-listed :
    (k j : Key) (o : Option ConfigSection)
    → contains (listed k o) j ≡ (k == j || contains (shares_of o) j)
contains-listed k j none = ground arith
contains-listed k j (some cfg) = ground (arith, eq_iff k j, contains-append cfg.shares k j)

listed-Nodup : (k : Key) (o : Option ConfigSection) → Nodup (shares_of o) → Nodup (listed k o)
listed-Nodup k none u = (refl, tt)
listed-Nodup k (some cfg) u = ground (arith, append-Nodup cfg.shares k)

new-Consistent : (id : Key) → Consistent id new
unfolding lookup
new-Consistent id = record { only = (λ k other. refl); listing = (λ k. refl); nodup = tt }

module _ (pl : Planner) (s : SambaContainerConfig) where
  shares_of-update :
      (r : Change)
      → update pl s ≡ returns r
      → shares_of (lookup (instance_id pl) r.1.configs)
        ≡ listed (share_name pl) (lookup (instance_id pl) s.configs)
  shares_of-update r h = let (cfg, found, e) = update_listing pl s r h in ap shares_of found ∙ e

  update-Consistent :
      (r : Change)
      → Consistent (instance_id pl) s
      → update pl s ≡ returns r
      → Consistent (instance_id pl) r.1
  update-Consistent r c h = record {
    only = (λ k other. update_keeps_configs pl s r k other h ∙ c.only k other);
    listing = (λ k.
        ap (λ xs. contains xs k) (shares_of-update r h)
        ∙ contains-listed (share_name pl) k (lookup (instance_id pl) s.configs)
        ∙ ap (λ b. share_name pl == k || b) (c.listing k)
        ∙ sym (update_defines pl s r k h));
    nodup =
        subst Nodup (sym (shares_of-update r h))
          (listed-Nodup (share_name pl) (lookup (instance_id pl) s.configs) c.nodup);
  }

  shares_of-prune :
      shares_of (lookup (instance_id pl) (prune pl s).1.configs)
      ≡ (take_out (share_name pl) (shares_of (lookup (instance_id pl) s.configs))).0
  shares_of-prune =
      ap shares_of (prune_own_section pl s)
      ∙ shares_of-without (share_name pl) (lookup (instance_id pl) s.configs)

  prune-Consistent : Consistent (instance_id pl) s → Consistent (instance_id pl) (prune pl s).1
  prune-Consistent c = record {
    only = (λ k other.
        prune_configs pl s k ∙ ground (arith, eq_iff (instance_id pl) k, c.only k other));
    listing = (λ k.
        ap (λ xs. contains xs k) shares_of-prune
        ∙ contains-take_out (share_name pl) k (shares_of (lookup (instance_id pl) s.configs))
            c.nodup
        ∙ ground (arith, c.listing k, prune_shares pl s k));
    nodup =
        subst Nodup (sym shares_of-prune)
          (take_out-Nodup (share_name pl) (shares_of (lookup (instance_id pl) s.configs)) c.nodup);
  }

-- Whatever shares of a server group are updated and pruned, in any order, from the empty
-- configuration: the only section of the configuration is the group's, and it lists the shares
-- that the configuration defines, each of them once.
pub Reached-Consistent : (id : Key) (s : SambaContainerConfig) → Reached id s → Consistent id s
Reached-Consistent id s start = new-Consistent id
Reached-Consistent id s (updated pl t r reached same h) =
    subst (λ i. Consistent i r.1) same
      (update-Consistent pl t r
        (subst (λ i. Consistent i t) (sym same) (Reached-Consistent id t reached)) h)
Reached-Consistent id s (pruned pl t reached same) =
    subst (λ i. Consistent i (prune pl t).1) same
      (prune-Consistent pl t
        (subst (λ i. Consistent i t) (sym same) (Reached-Consistent id t reached)))
