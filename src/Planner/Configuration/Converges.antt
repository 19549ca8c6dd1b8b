-- ===== src/Planner/Configuration/Converges.antt =====
-- `Update` as a whole: when it changes nothing, and that it comes to rest.
use samba_operator.Base.{◌∙◌, ◌↔◌, some, [], arith, Bool-cases, inl, inr, is_some, ap, subst}
use samba_operator.Base.{String, ◌≡◌, sym, ◌≢◌, Bool, true, false}
use samba_operator.Base.Dict.{Dict, lookup, lookup-insert_self, NodupKeys, insert_same}
use samba_operator.Base.Panics.{returns}
use samba_operator.Smbcc.{
  SambaContainerConfig, ConfigSection, ShareConfig, GlobalConfig, globals_key,
}
use samba_operator.Planner.Instance.{Planner}
use samba_operator.Planner.Configuration.{
  add_globals, find_share, share_or_new, configure_share, add_users, update, share_name,
  instance_id, has_share, Change, custom_options,
}
use samba_operator.Planner.Properties.{ad_mode, security_mode, realm}
use samba_operator.Planner.Configuration.Applied.{Applied}
use samba_operator.Planner.Configuration.ShareOptions.{
  ShareSettled, NoConflict, Conflict, configure_share_settled, configure_share_unchanged,
  ShareSettled-configure_share, not-ShareSettled_of_Conflict,
}
use samba_operator.Planner.Configuration.Steps.{
  common_options, GlobalsSettled, SectionSettled, RealmSettled, add_globals_settled,
  add_globals_unchanged, add_globals_there, customize_globals_settled, customize_globals_unchanged,
  GlobalsSettled-customize_globals,
}
use samba_operator.Planner.Configuration.Section.{
  update_section_settled, update_section_unchanged, SectionSettled-update_section,
}
use samba_operator.Planner.Configuration.Realm.{
  add_realm_settled, add_realm_unchanged, RealmSettled-add_realm, HasGlobals-add_realm,
  add_users_settled, add_users_unchanged, add_users_there,
}
use samba_operator.Planner.Configuration.UpdateSteps.{
  found_share, after_globals, after_share, changed_before, UpdateSteps, update_steps, Origins,
  origins,
}

-- The configuration holds all that the resources of the planner ask for.
pub record Settled (pl : Planner) (s : SambaContainerConfig) : Type 0 where
  pub globals : GlobalsSettled pl s
  pub share :
      (share : ShareConfig) × (lookup (share_name pl) s.shares ≡ some share)
      × ShareSettled pl.smb_share.spec share
  pub section : SectionSettled pl s
  pub users : s.users ≢ []
  pub realm_globals : RealmSettled pl s

module _ (pl : Planner) (s : SambaContainerConfig) where
  -- A configuration that has everything is left as it is.
  pub update-Settled : Settled pl s → update pl s ≡ returns (false, s)
  unfolding update find_share
  update-Settled h =
      let (g, there, _) = h.globals in
      let (share, found, settled) = h.share in
      rw (add_globals_settled pl s (rw there)) (
        rw (customize_globals_settled pl s h.globals) (
          rw (found, share_or_new)
            (rw (configure_share_settled pl.smb_share.spec share settled) (
              rw (insert_same (share_name pl) share s.shares found) (
                rw (update_section_settled pl s h.section) (
                  rw (add_users_settled pl s h.users)
                    (rw (add_realm_settled pl s h.realm_globals))))))))

  -- The steps before the section: where no flag is up, they changed nothing.
  record NothingBefore (made : Bool) (share : ShareConfig) : Type 0 where
    globals : GlobalsSettled pl s
    found : lookup (share_name pl) s.shares ≡ some share
    settled : ShareSettled pl.smb_share.spec share
    same : after_share pl s share ≡ s

  nothing_before :
      (made : Bool) (share : ShareConfig)
      → find_share pl (add_globals pl s).1 ≡ returns (made, share)
      → changed_before pl s made share ≡ false
      → NothingBefore made share
  nothing_before made share found h =
      let (there, same₁) = add_globals_unchanged pl s (ground (arith, h)) in
      let (g, same₂) =
        customize_globals_unchanged pl (add_globals pl s).1 (rw same₁ there) (ground (arith, h)) in
      let (settled, same₃) =
        configure_share_unchanged pl.smb_share.spec share (ground (arith, h)) in
      let old : made ≡ false = ground (arith, h) in
      let here : lookup (share_name pl) s.shares ≡ some share =
        found_share pl s share (rw (← old) (rw same₁ at found)) in
      record {
        globals = rw same₁ at g;
        found = here;
        settled = settled;
        same =
            rw same₂ (rw same₁ (rw same₃ (rw (insert_same (share_name pl) share s.shares here))));
      }

  unchanged_steps :
      (s' : SambaContainerConfig) → UpdateSteps pl s (false, s') → (s' ≡ s) × Settled pl s
  unchanged_steps s' u =
      let stored_down : u.stored.0 ≡ false = ground (arith, u.result) in
      let users_down : (add_users u.stored.1).0 ≡ false = ground (arith, u.result) in
      let realm_down : u.realm_set.0 ≡ false = ground (arith, u.result) in
      let (before_down, same₁, section) =
        update_section_unchanged pl (after_share pl s u.found.1)
          (changed_before pl s u.found.0 u.found.1) u.stored.1 (ground (arith, u.stored_eq)) in
      let b = nothing_before u.found.0 u.found.1 u.found_eq before_down in
      let (same₂, users) = add_users_unchanged pl u.stored.1 users_down in
      let (same₃, realm_there) =
        add_realm_unchanged pl (add_users u.stored.1).1 u.realm_set.1
          (ground (arith, u.realm_eq)) in
      let same : u.stored.1 ≡ s = same₁ ∙ b.same in
      (
        ap (λ (r : Change). r.1) u.result ∙ same₃ ∙ same₂ ∙ same,
        record {
          globals = b.globals;
          share = (u.found.1, b.found, b.settled);
          section = subst (SectionSettled pl) b.same section;
          users = subst (λ t. t.users ≢ []) same users;
          realm_globals = subst (RealmSettled pl) (same₂ ∙ same) realm_there;
        },
      )

  -- `Update` reports no change exactly where the configuration holds all that the resources ask
  -- for, and then it returns the configuration that it was given.
  pub update_unchanged_iff :
      (s' : SambaContainerConfig) → (update pl s ≡ returns (false, s')) ↔ (Settled pl s × (s' ≡ s))
  update_unchanged_iff s' = (
    (λ h.
        let (same, settled) = unchanged_steps s' (update_steps pl s (false, s') h) in
        (settled, same)),
    (λ (settled, same). rw same (update-Settled settled)),
  )

  abbrev GlobalsIn : Dict GlobalConfig → Type 0
  GlobalsIn gs =
      (g : GlobalConfig) × (lookup globals_key gs ≡ some g) × Applied (common_options pl) g.options

  abbrev SectionIn : Dict ConfigSection → Type 0
  SectionIn cs =
      (cfg : ConfigSection) × (lookup (instance_id pl) cs ≡ some cfg)
      × (has_share cfg (share_name pl) ≡ true)

  abbrev RealmIn : Dict GlobalConfig → Type 0
  RealmIn gs =
      (k : String)
      → security_mode pl ≡ ad_mode
      → realm pl ≡ returns k
      → is_some (lookup k gs) ≡ true

  globals_after :
      (r : Change) (u : UpdateSteps pl s r)
      → Origins pl s r u
      → NodupKeys (common_options pl)
      → GlobalsIn r.1.globals
  globals_after r u o ug = subst GlobalsIn (sym o.globals) (
      HasGlobals-add_realm pl (add_users u.stored.1).1 (common_options pl) u.realm_set u.realm_eq (
        subst GlobalsIn (sym o.globals_before)
          (GlobalsSettled-customize_globals pl (add_globals pl s).1 (add_globals_there pl s) ug)))

  Settled-after :
      (r : Change) (u : UpdateSteps pl s r)
      → Origins pl s r u
      → NodupKeys (custom_options pl.smb_share.spec)
      → NodupKeys (common_options pl)
      → NoConflict pl.smb_share.spec
      → Settled pl r.1
  Settled-after r u o us ug n = record {
    globals = globals_after r u o ug;
    share = (
      (configure_share u.found.1 pl.smb_share.spec).1,
      subst (λ t. lookup (share_name pl) t ≡ some (configure_share u.found.1 pl.smb_share.spec).1)
          (sym o.shares) (lookup-insert_self (share_name pl) _ (after_globals pl s).shares),
      ShareSettled-configure_share pl.smb_share.spec u.found.1 us n,
    );
    section = subst SectionIn (sym o.configs) (
        SectionSettled-update_section pl (after_share pl s u.found.1)
          (changed_before pl s u.found.0 u.found.1) u.stored u.stored_eq);
    users = subst (λ t. t ≢ []) (sym o.users) (add_users_there pl u.stored.1);
    realm_globals =
        subst RealmIn (sym o.globals)
          (RealmSettled-add_realm pl (add_users u.stored.1).1 u.realm_set u.realm_eq);
  }

  -- After an `Update` that returned the configuration holds all that the resources ask for, where
  -- the custom options agree with the fields of the resource and list no option twice.
  pub Settled-update :
      (r : Change)
      → NodupKeys (custom_options pl.smb_share.spec)
      → NodupKeys (common_options pl)
      → NoConflict pl.smb_share.spec
      → update pl s ≡ returns r
      → Settled pl r.1
  Settled-update r us ug n h =
      let u = update_steps pl s r h in Settled-after r u (origins pl s r u) us ug n

  -- Where a custom option gainsays the field of the resource that names it, every `Update` that
  -- returns reports a change, whatever the configuration is.
  pub update-Conflict :
      (r : Change) → Conflict pl.smb_share.spec → update pl s ≡ returns r → r.0 ≡ true
  update-Conflict r c h = elim (Bool-cases r.0) [
    | inl up ↦ up
    | inr down ↦
        let unchanged : update pl s ≡ returns (false, r.1) = h ∙ ground (arith, down) in
        let (share, _, settled) = ((update_unchanged_iff r.1).0 unchanged).0.share in
        absurd (not-ShareSettled_of_Conflict pl.smb_share.spec share c settled)
  ]

-- Where the custom options agree with the fields of the resource and list no option twice, an
-- `Update` after one that returned finds nothing to do: it reports no change and returns the
-- configuration as it is.
pub update_converges :
    (pl : Planner) (s : SambaContainerConfig) (r : Change)
    → NodupKeys (custom_options pl.smb_share.spec)
    → NodupKeys (common_options pl)
    → NoConflict pl.smb_share.spec
    → update pl s ≡ returns r
    → update pl r.1 ≡ returns (false, r.1)
update_converges pl s r us ug n h = update-Settled pl r.1 (Settled-update pl s r us ug n h)
