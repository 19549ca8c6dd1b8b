-- ===== src/Planner/Configuration/Frame.antt =====
-- What `Update` does to the two maps that grow with the shares: the entry of the planner's own
-- share or instance is written, and no other.
use samba_operator.Base.{String, ◌≡◌, ap, subst, ◌∙◌, ◌≢◌, ◌==◌, eq_iff, Bool, true, ◌||◌}
use samba_operator.Base.{Option, none, some, arith, if◌then◌else◌, is_some}
use samba_operator.Base.Dict.{Dict, lookup, insert, lookup-insert, lookup-insert_self, NodupKeys}
use samba_operator.Base.Panics.{returns, >>=-eq-returns}
use samba_operator.Smbcc.{
  SambaContainerConfig, ConfigSection, ShareConfig, Key, browseable_param, read_only_param,
  new_simple_share,
}
use samba_operator.Planner.Instance.{Planner}
use samba_operator.Planner.Paths
use samba_operator.Planner.Configuration.{
  add_globals, find_share, share_or_new, configure_share, update, share_name, instance_id, Change,
  custom_options, browseable_value, read_only_value,
}
use samba_operator.Planner.Configuration.Applied.{override}
use samba_operator.Planner.Configuration.ShareOptions.{lookup-configure_share}
use samba_operator.Planner.Configuration.Steps.{add_globals_frame, customize_globals_frame}
use samba_operator.Planner.Configuration.Section.{
  update_section_keeps, update_section_listing, listed,
}
use samba_operator.Planner.Configuration.UpdateSteps.{
  after_globals, after_share, changed_before, UpdateSteps, update_steps, origins,
}

module _ (pl : Planner) (s : SambaContainerConfig) where
  pub shares_before : (after_globals pl s).shares ≡ s.shares
  shares_before =
      ap (λ (t : SambaContainerConfig). t.shares) (customize_globals_frame pl (add_globals pl s).1)
      ∙ ap (λ (t : SambaContainerConfig). t.shares) (add_globals_frame pl s)

  pub configs_before : (after_globals pl s).configs ≡ s.configs
  configs_before =
      ap (λ (t : SambaContainerConfig). t.configs) (customize_globals_frame pl (add_globals pl s).1)
      ∙ ap (λ (t : SambaContainerConfig). t.configs) (add_globals_frame pl s)

  update_shares_steps :
      (r : Change) (u : UpdateSteps pl s r)
      → r.1.shares ≡ insert (share_name pl) (configure_share u.found.1 pl.smb_share.spec).1 s.shares
  update_shares_steps r u =
      (origins pl s r u).shares
      ∙ ap
          (λ (t : Dict ShareConfig).
            insert (share_name pl) (configure_share u.found.1 pl.smb_share.spec).1 t)
          shares_before

  -- `Update` leaves the sections of other shares as they are.
  pub update_keeps_shares :
      (r : Change) (k : Key)
      → k ≢ share_name pl
      → update pl s ≡ returns r
      → lookup k r.1.shares ≡ lookup k s.shares
  update_keeps_shares r k other h =
      rw (update_shares_steps r (update_steps pl s r h))
        (rw lookup-insert (ground (arith, eq_iff (share_name pl) k)))

  -- The shares that have a section afterwards.
  pub update_defines :
      (r : Change) (k : Key)
      → update pl s ≡ returns r
      → is_some (lookup k r.1.shares) ≡ (share_name pl == k || is_some (lookup k s.shares))
  update_defines r k h =
      let u = update_steps pl s r h in
      let share' = (configure_share u.found.1 pl.smb_share.spec).1 in
      rw (update_shares_steps r u) (ground (arith, lookup-insert k (share_name pl) share' s.shares))

  configs_steps : (r : Change) (u : UpdateSteps pl s r) → r.1.configs ≡ u.stored.1.configs
  configs_steps r u = (origins pl s r u).configs

  before_section : (share : ShareConfig) → (after_share pl s share).configs ≡ s.configs
  before_section share = configs_before

  -- `Update` leaves the sections of other instances as they are.
  pub update_keeps_configs :
      (r : Change) (k : Key)
      → k ≢ instance_id pl
      → update pl s ≡ returns r
      → lookup k r.1.configs ≡ lookup k s.configs
  update_keeps_configs r k other h =
      let u = update_steps pl s r h in
      ap (lookup k) (configs_steps r u)
      ∙ update_section_keeps pl (after_share pl s u.found.1)
          (changed_before pl s u.found.0 u.found.1) u.stored k other u.stored_eq
      ∙ ap (lookup k) configs_before

  -- After an `Update` that returned, the instance's section lists what it listed before, and the
  -- share: at the end, where it was not listed.
  pub update_listing :
      (r : Change)
      → update pl s ≡ returns r
      → (cfg : ConfigSection) × (lookup (instance_id pl) r.1.configs ≡ some cfg)
        × (cfg.shares ≡ listed (share_name pl) (lookup (instance_id pl) s.configs))
  update_listing r h =
      let u = update_steps pl s r h in
      let (cfg, found, e) =
        update_section_listing pl (after_share pl s u.found.1)
          (changed_before pl s u.found.0 u.found.1) u.stored u.stored_eq in
      (
        cfg,
        ap (lookup (instance_id pl)) (configs_steps r u) ∙ found,
        e ∙ ap (λ t. listed (share_name pl) (lookup (instance_id pl) t)) configs_before,
      )

-- The options that a share starts from: those that it has, or a new share's at its path.
abbrev pub StartsFrom : Planner → Option ShareConfig → ShareConfig → Type 0
StartsFrom pl none old =
    (path : String) × (Paths.share pl ≡ returns path) × (old ≡ new_simple_share path)
StartsFrom pl (some share) old = old ≡ share

starts_from :
    (pl : Planner) (o : Option ShareConfig) (f : Bool × ShareConfig)
    → share_or_new pl o ≡ returns f
    → StartsFrom pl o f.1
unfolding share_or_new
starts_from pl none f h =
    let (path, e, made) =
      >>=-eq-returns (Paths.share pl) (λ path. returns (true, new_simple_share path)) h in
    (path, e, cc made)
starts_from pl (some share) f h = cc

-- After an `Update` that returned, where no custom option is listed twice, every option of the
-- share is known: the fields of the resource decide the two that they name, the custom options
-- decide the others that they list, and any other is as it was, or as a new share has it.
pub update_share_options :
    (pl : Planner) (s : SambaContainerConfig) (r : Change)
    → NodupKeys (custom_options pl.smb_share.spec)
    → update pl s ≡ returns r
    → (old share : ShareConfig) × StartsFrom pl (lookup (share_name pl) s.shares) old
      × (lookup (share_name pl) r.1.shares ≡ some share)
      × ((j : String)
          → lookup j share.options ≡ (
              if read_only_param == j
              then some (read_only_value pl.smb_share.spec)
              else if browseable_param == j
              then some (browseable_value pl.smb_share.spec)
              else override (lookup j (custom_options pl.smb_share.spec)) (lookup j old.options)))
update_share_options pl s r us h =
    let u = update_steps pl s r h in
    let share' = (configure_share u.found.1 pl.smb_share.spec).1 in
    let kept : (add_globals pl s).1.shares ≡ s.shares =
      ap (λ (t : SambaContainerConfig). t.shares) (add_globals_frame pl s) in
    (
      u.found.1,
      share',
      subst (λ t. StartsFrom pl (lookup (share_name pl) t) u.found.1) kept
          (starts_from pl (lookup (share_name pl) (add_globals pl s).1.shares) u.found
            (unfold find_share in u.found_eq)),
      ap (lookup (share_name pl)) (update_shares_steps pl s r u)
          ∙ lookup-insert_self (share_name pl) share' s.shares,
      (λ j. lookup-configure_share pl.smb_share.spec u.found.1 j us),
    )
