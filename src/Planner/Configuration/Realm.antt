-- ===== src/Planner/Configuration/Realm.antt =====
-- The globals of the realm, and the users.
use samba_operator.Base.{String, ◌≡◌, ◌≢◌, ◌==◌, eq_iff, eq_refl, true, false}
use samba_operator.Base.{
  ◌⊎◌, ◌∙◌, none, some, [], arith, Bool-cases, Option-cases, inl, inr, is_some,
}
use samba_operator.Base.Dict.{Dict, lookup, insert, lookup-insert}
use samba_operator.Base.Panics.{returns}
use samba_operator.Smbcc.{SambaContainerConfig, GlobalConfig, globals_key}
use samba_operator.Planner.Instance.{Planner}
use samba_operator.Planner.Properties.{user_mode, ad_mode, security_mode, realm}
use samba_operator.Planner.Configuration.{
  add_users, add_realm, realm_globals, realm_section, Change,
}
use samba_operator.Planner.Configuration.Steps.{HasGlobals, RealmSettled}
use samba_operator.Base.Strings.{to_upper, before}
use samba_operator.Api.SmbSecurityConfig.{SmbSecurityConfig}

not_ad : ¬ (◌≡◌ {A = String} user_mode ad_mode)
not_ad e = cc ((eq_iff user_mode ad_mode).1 e)

-- In AD mode there is a security configuration, and the realm can be read from it.
pub realm_of_ad :
    (pl : Planner)
    → security_mode pl ≡ ad_mode
    → (c : SmbSecurityConfig) × (pl.security_config ≡ some c)
      × (realm pl ≡ returns (to_upper c.spec.realm))
unfolding security_mode realm
realm_of_ad pl h = elim (Option-cases pl.security_config) [
  | inl absent ↦ absurd (not_ad (rw absent at h))
  | inr (c, found) ↦ (c, found, ground arith)
]

module _ (pl : Planner) (s : SambaContainerConfig) where
  -- The realm's globals were written.
  abbrev Written : Type 0
  Written =
      (r : String) × (g : GlobalConfig) × (security_mode pl ≡ ad_mode)
      × (realm pl ≡ returns r)
      × (lookup r s.globals ≡ none)
      × (add_realm pl s ≡ returns (true, record s { globals = insert r g s.globals }))

  module _ (c : SmbSecurityConfig) (found : pl.security_config ≡ some c) where
    realm_there :
        is_some (lookup (to_upper c.spec.realm) s.globals) ≡ true
        → realm_globals pl s ≡ returns (false, s)
    unfolding realm_globals
    realm_there h = ground arith

    realm_missing :
        is_some (lookup (to_upper c.spec.realm) s.globals) ≡ false
        → (g : GlobalConfig) × (realm_globals pl s
            ≡ returns (true, record s { globals = insert (to_upper c.spec.realm) g s.globals }))
    unfolding realm_globals
    realm_missing h = (
      realm_section pl (before "." (to_upper c.spec.realm)) (to_upper c.spec.realm),
      ground arith,
    )

  add_realm_ad : security_mode pl ≡ ad_mode → add_realm pl s ≡ realm_globals pl s
  add_realm_ad h = unfold add_realm in rw h (ground (arith, eq_refl ad_mode))

  add_realm_not_ad : security_mode pl ≢ ad_mode → add_realm pl s ≡ returns (false, s)
  add_realm_not_ad h = unfold add_realm in ground (arith, eq_iff (security_mode pl) ad_mode)

  realm_cases :
      (c : SmbSecurityConfig)
      → pl.security_config ≡ some c
      → security_mode pl ≡ ad_mode
      → realm pl ≡ returns (to_upper c.spec.realm)
      → (RealmSettled pl s × (add_realm pl s ≡ returns (false, s))) ⊎ Written
  realm_cases c found ad e = elim (Option-cases (lookup (to_upper c.spec.realm) s.globals)) [
    | inl absent ↦
        let (g, written) = realm_missing c found (rw absent) in
        inr (to_upper c.spec.realm, g, ad, e, absent, add_realm_ad ad ∙ written)
    | inr (g, there) ↦
        inl ((λ r _ e'. cc (e, e', there)), add_realm_ad ad ∙ realm_there c found (rw there))
  ]

  add_realm_cases : (RealmSettled pl s × (add_realm pl s ≡ returns (false, s))) ⊎ Written
  add_realm_cases = elim (Bool-cases (security_mode pl == ad_mode)) [
    | inl same ↦
        let ad = (eq_iff (security_mode pl) ad_mode).0 same in
        let (c, found, e) = realm_of_ad pl ad in realm_cases c found ad e
    | inr other ↦
        let not_ad_mode : security_mode pl ≢ ad_mode =
          λ ad. cc ((eq_iff (security_mode pl) ad_mode).1 ad) in
        inl ((λ r ad _. absurd (not_ad_mode ad)), add_realm_not_ad not_ad_mode)
  ]

  pub add_realm_settled : RealmSettled pl s → add_realm pl s ≡ returns (false, s)
  add_realm_settled h = elim add_realm_cases [
    | inl (_, e) ↦ e
    | inr (r, g, ad, e, absent, _) ↦ absurd (cc (h r ad e, absent))
  ]

  pub add_realm_total : (r : Change) × (add_realm pl s ≡ returns r)
  add_realm_total = elim add_realm_cases [
    | inl (_, e) ↦ ((false, s), e)
    | inr (r, g, _, _, _, e) ↦ ((true, record s { globals = insert r g s.globals }), e)
  ]

  pub add_realm_unchanged :
      (s' : SambaContainerConfig)
      → add_realm pl s ≡ returns (false, s')
      → (s' ≡ s) × RealmSettled pl s
  add_realm_unchanged s' h = elim add_realm_cases [
    | inl (settled, e) ↦ (cc (e, h), settled)
    | inr (r, g, _, _, _, e) ↦ absurd (cc (e, h))
  ]

  pub RealmSettled-add_realm : (r : Change) → add_realm pl s ≡ returns r → RealmSettled pl r.1
  RealmSettled-add_realm r h = elim add_realm_cases [
    | inl (settled, e) ↦ let same : r.1 ≡ s = cc (e, h) in rw same settled
    | inr (k, g, _, er, _, e) ↦ λ r' _ e'.
        let key : k ≡ r' = cc (er, e') in
        let same : r.1 ≡ record s { globals = insert k g s.globals } = cc (e, h) in
        ground (arith, lookup-insert r' k g s.globals, eq_refl k)
  ]

  -- The default globals stay, and nothing but the globals is written.
  pub HasGlobals-add_realm :
      (cs : Dict String) (r : Change)
      → add_realm pl s ≡ returns r
      → HasGlobals cs s
      → HasGlobals cs r.1
  HasGlobals-add_realm cs r h (g, found, applied) = elim add_realm_cases [
    | inl (settled, e) ↦ let same : r.1 ≡ s = cc (e, h) in (g, rw same found, applied)
    | inr (k, g', _, _, absent, e) ↦
        let same : r.1 ≡ record s { globals = insert k g' s.globals } = cc (e, h) in
        (g, ground (arith, lookup-insert globals_key k g' s.globals, eq_iff k globals_key), applied)
  ]

  pub add_realm_frame :
      (r : Change) → add_realm pl s ≡ returns r → r.1 ≡ record s { globals = r.1.globals }
  add_realm_frame r h = elim add_realm_cases [
    | inl (settled, e) ↦ let same : r.1 ≡ s = cc (e, h) in ground arith
    | inr (k, g, _, _, _, e) ↦
        let same : r.1 ≡ record s { globals = insert k g s.globals } = cc (e, h) in ground arith
  ]

  pub add_users_unchanged : (add_users s).0 ≡ false → ((add_users s).1 ≡ s) × (s.users ≢ [])
  unfolding add_users
  add_users_unchanged h = ground arith

  pub add_users_settled : s.users ≢ [] → add_users s ≡ (false, s)
  unfolding add_users
  add_users_settled h = ground arith

  pub add_users_there : (add_users s).1.users ≢ []
  unfolding add_users
  add_users_there h = ground arith

  pub add_users_frame : (add_users s).1 ≡ record s { users = (add_users s).1.users }
  unfolding add_users
  add_users_frame = ground arith
