-- ===== src/Planner/Configuration/Prune.antt =====
-- What `Prune` leaves of the configuration.
use samba_operator.Base.{◌≡◌, refl, ap, ◌∙◌, ◌==◌, eq_iff, eq_refl, Bool, false, not, ◌||◌, ◌&&◌}
use samba_operator.Base.{Option, none, some, List, [], ◌∷◌, arith, if◌then◌else◌, is_some, contains}
use samba_operator.Base.Dict.{lookup, lookup-insert, lookup-erase}
use samba_operator.Smbcc.{SambaContainerConfig, ConfigSection, Key}
use samba_operator.Planner.Instance.{Planner}
use samba_operator.Planner.Configuration.{
  take_out, remove_share, prune_found, prune_section, prune, share_name, instance_id,
}

-- No text is listed twice.
abbrev pub Nodup : List Key → Type 0
Nodup [] = Unit
Nodup (x ∷ xs) = (contains xs x ≡ false) × Nodup xs

pub contains-take_out :
    (k j : Key) (xs : List Key)
    → Nodup xs
    → contains (take_out k xs).0 j ≡ (contains xs j && not (k == j))
unfolding take_out
contains-take_out k j [] u = refl
contains-take_out k j (x ∷ xs) (fresh, u) =
    ground (arith, eq_iff x k, eq_iff x j, eq_iff k j, contains-take_out k j xs u)

pub take_out-Nodup : (k : Key) (xs : List Key) → Nodup xs → Nodup (take_out k xs).0
unfolding take_out
take_out-Nodup k [] u = tt
take_out-Nodup k (x ∷ xs) (fresh, u) =
    ground (arith, take_out-Nodup k xs u, contains-take_out k x xs u)

take_out_found : (k : Key) (xs : List Key) → (take_out k xs).1 ≡ contains xs k
unfolding take_out
take_out_found k [] = refl
take_out_found k (x ∷ xs) = ground (arith, take_out_found k xs)

take_out_missing : (k : Key) (xs : List Key) → contains xs k ≡ false → (take_out k xs).0 ≡ xs
unfolding take_out
take_out_missing k [] h = refl
take_out_missing k (x ∷ xs) h = ground (arith, take_out_missing k xs)

-- A section without the share.
abbrev pub without : Key → Option ConfigSection → Option ConfigSection
without k none = none
without k (some cfg) = some (remove_share cfg k).0

-- Whether the section lists the share.
abbrev pub lists : Key → Option ConfigSection → Bool
lists k none = false
lists k (some cfg) = contains cfg.shares k

module _ (pl : Planner) (s : SambaContainerConfig) where
  prune_found_flag : (o : Option ConfigSection) → (prune_found pl s o).0 ≡ lists (share_name pl) o
  unfolding prune_found remove_share
  prune_found_flag none = refl
  prune_found_flag (some cfg) = ground (arith, take_out_found (share_name pl) cfg.shares)

  pub prune_section_flag :
      (prune_section pl s).0 ≡ lists (share_name pl) (lookup (instance_id pl) s.configs)
  unfolding prune_section
  prune_section_flag = prune_found_flag (lookup (instance_id pl) s.configs)

  prune_found_configs :
      (j : Key) (o : Option ConfigSection)
      → lookup (instance_id pl) s.configs ≡ o
      → lookup j (prune_found pl s o).1.configs
        ≡ (if instance_id pl == j then without (share_name pl) o else lookup j s.configs)
  unfolding prune_found remove_share
  prune_found_configs j none e = ground (arith, eq_iff (instance_id pl) j)
  prune_found_configs j (some cfg) e = ground (
    arith,
    eq_iff (instance_id pl) j,
    take_out_found (share_name pl) cfg.shares,
    take_out_missing (share_name pl) cfg.shares,
    lookup-insert j (instance_id pl) (remove_share cfg (share_name pl)).0 s.configs,
  )

  pub prune_section_configs :
      (j : Key)
      → lookup j (prune_section pl s).1.configs ≡ (
          if instance_id pl == j
          then without (share_name pl) (lookup (instance_id pl) s.configs)
          else lookup j s.configs)
  unfolding prune_section
  prune_section_configs j = prune_found_configs j (lookup (instance_id pl) s.configs) refl

  prune_found_frame :
      (o : Option ConfigSection)
      → (prune_found pl s o).1 ≡ record s { configs = (prune_found pl s o).1.configs }
  unfolding prune_found
  prune_found_frame none = refl
  prune_found_frame (some cfg) = ground arith

  -- Only the sections are written.
  pub prune_section_frame :
      (prune_section pl s).1 ≡ record s { configs = (prune_section pl s).1.configs }
  unfolding prune_section
  prune_section_frame = prune_found_frame (lookup (instance_id pl) s.configs)

  shares_kept : (prune_section pl s).1.shares ≡ s.shares
  shares_kept = ap (λ (t : SambaContainerConfig). t.shares) prune_section_frame

  -- After `Prune` the share has no section, and every other share has the one that it had.
  pub prune_shares :
      (j : Key)
      → lookup j (prune pl s).1.shares ≡ (if share_name pl == j then none else lookup j s.shares)
  unfolding prune
  prune_shares j = rw shares_kept (
      ground
        (arith, shares_kept, eq_iff (share_name pl) j, lookup-erase j (share_name pl) s.shares))

  -- After `Prune` the section of the instance, if there is one, is without the share; the sections
  -- of other instances are as they were.
  pub prune_configs :
      (j : Key)
      → lookup j (prune pl s).1.configs ≡ (
          if instance_id pl == j
          then without (share_name pl) (lookup (instance_id pl) s.configs)
          else lookup j s.configs)
  unfolding prune
  prune_configs j = ground (arith, prune_section_configs j)

  pub prune_own_section :
      lookup (instance_id pl) (prune pl s).1.configs
      ≡ without (share_name pl) (lookup (instance_id pl) s.configs)
  prune_own_section = prune_configs (instance_id pl) ∙ ground (arith, eq_refl (instance_id pl))

  pub prune_frame :
      (prune pl s).1 ≡ record s { configs = (prune pl s).1.configs; shares = (prune pl s).1.shares }
  unfolding prune
  prune_frame = ground (arith, prune_section_frame)

  -- `Prune` reports a change exactly where the share has a section or is listed.
  pub prune_flag : (prune pl s).0 ≡ (
      is_some (lookup (share_name pl) s.shares)
      || lists (share_name pl) (lookup (instance_id pl) s.configs))
  unfolding prune
  prune_flag = ground (arith, shares_kept, prune_section_flag)

  prune_found_missing :
      (o : Option ConfigSection) → lists (share_name pl) o ≡ false → prune_found pl s o ≡ (false, s)
  unfolding prune_found remove_share
  prune_found_missing none h = refl
  prune_found_missing (some cfg) h = ground (arith, take_out_found (share_name pl) cfg.shares)

  -- Without the share, `Prune` changes nothing.
  pub prune_absent :
      lookup (share_name pl) s.shares ≡ none
      → lists (share_name pl) (lookup (instance_id pl) s.configs) ≡ false
      → prune pl s ≡ (false, s)
  unfolding prune prune_section
  prune_absent h l =
      rw (prune_found_missing (lookup (instance_id pl) s.configs) l) (ground (arith, h))

-- The shares that a section lists.
abbrev pub shares_of : Option ConfigSection → List Key
shares_of none = []
shares_of (some cfg) = cfg.shares

lists-shares_of : (k : Key) (o : Option ConfigSection) → lists k o ≡ contains (shares_of o) k
lists-shares_of k none = refl
lists-shares_of k (some cfg) = refl

pub shares_of-without :
    (k : Key) (o : Option ConfigSection) → shares_of (without k o) ≡ (take_out k (shares_of o)).0
unfolding remove_share take_out
shares_of-without k none = refl
shares_of-without k (some cfg) = refl

lists-without :
    (k : Key) (o : Option ConfigSection) → Nodup (shares_of o) → lists k (without k o) ≡ false
lists-without k o u =
    lists-shares_of k (without k o)
    ∙ ap (λ xs. contains xs k) (shares_of-without k o)
    ∙ contains-take_out k k (shares_of o) u
    ∙ ground (arith, eq_refl k)

-- Where the section of the instance lists no share twice, a second `Prune` reports no change and
-- returns the configuration as it is.
pub prune_converges :
    (pl : Planner) (s : SambaContainerConfig)
    → Nodup (shares_of (lookup (instance_id pl) s.configs))
    → prune pl (prune pl s).1 ≡ (false, (prune pl s).1)
prune_converges pl s u =
    prune_absent pl (prune pl s).1
      (prune_shares pl s (share_name pl) ∙ ground (arith, eq_refl (share_name pl)))
      (ap (lists (share_name pl)) (prune_own_section pl s)
        ∙ lists-without (share_name pl) (lookup (instance_id pl) s.configs) u)
