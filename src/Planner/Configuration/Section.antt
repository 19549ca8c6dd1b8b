-- ===== src/Planner/Configuration/Section.antt =====
-- The section of the instance: when `update_section` changes nothing, and what it leaves behind.
use samba_operator.Base.{◌≡◌, refl, ◌≢◌, ◌==◌, eq_iff, eq_refl, Bool, true, false, ◌||◌}
use samba_operator.Base.{
  Option, none, some, List, [], ◌∷◌, ◌++◌, arith, if◌then◌else◌, Bool-cases, inl, inr, contains,
}
use samba_operator.Base.Dict.{lookup, lookup-insert, lookup-insert_self}
use samba_operator.Base.Panics.{returns, ◌>>=◌, >>=-eq-returns}
use samba_operator.Smbcc.{SambaContainerConfig, ConfigSection, Key}
use samba_operator.Planner.Instance.{Planner}
use samba_operator.Planner.Properties.{ad_mode, security_mode, realm}
use samba_operator.Planner.Configuration.{
  find_section, section_or_new, store_section, add_share, update_section, has_share, instance_id,
  share_name, Change, new_section, section_of,
}
use samba_operator.Planner.Configuration.Steps.{SectionSettled}

contains-append_self : (xs : List Key) (k : Key) → contains (xs ++ k ∷ []) k ≡ true
contains-append_self [] k = ground (arith, eq_refl k)
contains-append_self (x ∷ xs) k = ground (arith, contains-append_self xs k)

add_share_lists : (k : Key) (cfg : ConfigSection) → has_share (add_share k cfg).1 k ≡ true
unfolding add_share
add_share_lists k cfg = ground (arith, contains-append_self cfg.shares k)

add_share_unchanged :
    (k : Key) (cfg : ConfigSection) → (add_share k cfg).0 ≡ false → has_share cfg k ≡ true
unfolding add_share
add_share_unchanged k cfg h = ground arith

section_or_new_found :
    (pl : Planner) (o : Option ConfigSection) (cfg : ConfigSection)
    → section_or_new pl o ≡ returns (false, cfg)
    → o ≡ some cfg
unfolding section_or_new
section_or_new_found pl none cfg h =
    let (c, made, e) = >>=-eq-returns (new_section pl) (λ c. returns (true, c)) h in cc
section_or_new_found pl (some c) cfg h = cc

-- The shares of a section with `k` added, if it is not there.
abbrev pub listed : Key → Option ConfigSection → List Key
listed k none = k ∷ []
listed k (some cfg) = if contains cfg.shares k then cfg.shares else cfg.shares ++ k ∷ []

new_section_shares :
    (pl : Planner) (cfg : ConfigSection)
    → new_section pl ≡ returns cfg
    → cfg.shares ≡ share_name pl ∷ []
new_section_shares pl cfg h = elim (Bool-cases (security_mode pl == ad_mode)) [
  | inl same ↦
      let h' : (realm pl >>= λ r. returns (section_of pl (r ∷ []))) ≡ returns cfg =
        unfold new_section in rw same at h in
      let (r, _, e) = >>=-eq-returns (realm pl) (λ r. returns (section_of pl (r ∷ []))) h' in
      unfold section_of in ground (arith, e)
  | inr other ↦ unfold new_section in ground (arith, h)
]

section_shares :
    (pl : Planner) (o : Option ConfigSection) (f : Bool × ConfigSection)
    → section_or_new pl o ≡ returns f
    → (add_share (share_name pl) f.1).1.shares ≡ listed (share_name pl) o
unfolding section_or_new add_share
section_shares pl none f h =
    let (cfg, made, e) = >>=-eq-returns (new_section pl) (λ cfg. returns (true, cfg)) h in
    ground (arith, e, new_section_shares pl cfg made, eq_refl (share_name pl))
section_shares pl (some cfg) f h = ground arith

module _ (pl : Planner) (s : SambaContainerConfig) where
  -- The section that was found or made, and what was stored.
  abbrev Stored : Bool → Bool × ConfigSection → Change → Type 0
  Stored c (made, cfg) r =
      store_section pl (c || made || (add_share (share_name pl) cfg).0)
        (add_share (share_name pl) cfg).1 s
      ≡ r

  update_section_steps :
      (c : Bool) (r : Change)
      → update_section pl c s ≡ returns r
      → (f : Bool × ConfigSection) × (find_section pl s ≡ returns f) × Stored c f r
  unfolding update_section
  update_section_steps c r h =
      let (f, found, e) =
        >>=-eq-returns (find_section pl s)
          (λ (made, cfg). returns (
            store_section pl (c || made || (add_share (share_name pl) cfg).0)
              (add_share (share_name pl) cfg).1 s))
          h in
      (f, found, cc)

  find_section_found :
      (cfg : ConfigSection)
      → find_section pl s ≡ returns (false, cfg)
      → lookup (instance_id pl) s.configs ≡ some cfg
  unfolding find_section
  find_section_found cfg h = section_or_new_found pl (lookup (instance_id pl) s.configs) cfg h

  pub update_section_settled : SectionSettled pl s → update_section pl false s ≡ returns (false, s)
  unfolding update_section
  update_section_settled (cfg, found, listed) = rw (found, find_section) (rw listed)

  Stored-unchanged :
      (c made : Bool) (cfg : ConfigSection) (s' : SambaContainerConfig)
      → find_section pl s ≡ returns (made, cfg)
      → Stored c (made, cfg) (false, s')
      → (c ≡ false) × (s' ≡ s) × SectionSettled pl s
  unfolding store_section
  Stored-unchanged c made cfg s' found h =
      let old : made ≡ false = ground arith in
      (
        ground arith,
        ground arith,
        (
          cfg,
          find_section_found cfg (rw old at found),
          add_share_unchanged (share_name pl) cfg (ground arith),
        ),
      )

  Stored-lookup :
      (c made : Bool) (cfg : ConfigSection) (c' : Bool) (s' : SambaContainerConfig)
      → find_section pl s ≡ returns (made, cfg)
      → Stored c (made, cfg) (c', s')
      → lookup (instance_id pl) s'.configs ≡ some (add_share (share_name pl) cfg).1
  Stored-lookup c made cfg true s' found h =
      unfold store_section in
      ground
        (arith, lookup-insert_self (instance_id pl) (add_share (share_name pl) cfg).1 s.configs)
  Stored-lookup c made cfg false s' found h =
      let (_, same, _) = Stored-unchanged c made cfg s' found h in
      let old : made ≡ false = unfold store_section in ground arith in
      let kept : (add_share (share_name pl) cfg).1 ≡ cfg =
        unfold add_share store_section in ground arith in
      rw same (rw kept (find_section_found cfg (rw old at found)))

  Stored-settled :
      (c made : Bool) (cfg : ConfigSection) (c' : Bool) (s' : SambaContainerConfig)
      → find_section pl s ≡ returns (made, cfg)
      → Stored c (made, cfg) (c', s')
      → SectionSettled pl s'
  Stored-settled c made cfg c' s' found h = (
    (add_share (share_name pl) cfg).1,
    Stored-lookup c made cfg c' s' found h,
    add_share_lists (share_name pl) cfg,
  )

  pub SectionSettled-update_section :
      (c : Bool) (r : Change) → update_section pl c s ≡ returns r → SectionSettled pl r.1
  SectionSettled-update_section c r h =
      let ((made, cfg), found, stored) = update_section_steps c r h in
      Stored-settled c made cfg r.0 r.1 found stored

  pub update_section_unchanged :
      (c : Bool) (s' : SambaContainerConfig)
      → update_section pl c s ≡ returns (false, s')
      → (c ≡ false) × (s' ≡ s) × SectionSettled pl s
  update_section_unchanged c s' h =
      let ((made, cfg), found, stored) = update_section_steps c (false, s') h in
      Stored-unchanged c made cfg s' found stored

  -- Only the sections of the configuration are written.
  pub update_section_frame :
      (c : Bool) (r : Change)
      → update_section pl c s ≡ returns r
      → r.1 ≡ record s { configs = r.1.configs }
  unfolding store_section
  update_section_frame c r h =
      let (f, found, stored) = update_section_steps c r h in ground (arith, stored)

  store_section_keeps :
      (c : Bool) (cfg : ConfigSection) (k : Key)
      → k ≢ instance_id pl
      → lookup k (store_section pl c cfg s).1.configs ≡ lookup k s.configs
  unfolding store_section
  store_section_keeps true cfg k other =
      rw lookup-insert (ground (arith, eq_iff (instance_id pl) k))
  store_section_keeps false cfg k other = refl

  -- The sections of other instances stay as they are.
  pub update_section_keeps :
      (c : Bool) (r : Change) (k : Key)
      → k ≢ instance_id pl
      → update_section pl c s ≡ returns r
      → lookup k r.1.configs ≡ lookup k s.configs
  update_section_keeps c r k other h =
      let ((made, cfg), found, stored) = update_section_steps c r h in
      rw (← stored) (store_section_keeps _ (add_share (share_name pl) cfg).1 k other)

  find_section_shares :
      (f : Bool × ConfigSection)
      → find_section pl s ≡ returns f
      → (add_share (share_name pl) f.1).1.shares
        ≡ listed (share_name pl) (lookup (instance_id pl) s.configs)
  unfolding find_section
  find_section_shares f h = section_shares pl (lookup (instance_id pl) s.configs) f h

  -- The shares that the instance's section lists afterwards.
  pub update_section_listing :
      (c : Bool) (r : Change)
      → update_section pl c s ≡ returns r
      → (cfg : ConfigSection) × (lookup (instance_id pl) r.1.configs ≡ some cfg)
        × (cfg.shares ≡ listed (share_name pl) (lookup (instance_id pl) s.configs))
  update_section_listing c r h =
      let (f, found, stored) = update_section_steps c r h in
      (
        (add_share (share_name pl) f.1).1,
        Stored-lookup c f.0 f.1 r.0 r.1 found stored,
        find_section_shares f found,
      )
