-- ===== src/Planner/Configuration/UpdateSteps.antt =====
-- The steps that a call of `Update` went through.
use samba_operator.Base.{Option, none, some, ap}
use samba_operator.Base.{◌≡◌, Bool, true, false, ◌||◌}
use samba_operator.Base.Dict.{lookup, insert}
use samba_operator.Base.Panics.{returns, >>=-eq-returns}
use samba_operator.Smbcc.{SambaContainerConfig, ShareConfig, new_simple_share}
use samba_operator.Planner.Instance.{Planner}
use samba_operator.Planner.Paths
use samba_operator.Planner.Configuration.{
  add_globals, find_share, share_or_new, customize_globals, configure_share, update_section,
  add_users, add_realm, update, share_name, Change,
}
use samba_operator.Planner.Configuration.Section.{update_section_frame}
use samba_operator.Planner.Configuration.Realm.{add_realm_frame, add_users_frame}

share_or_new_found :
    (pl : Planner) (o : Option ShareConfig) (share : ShareConfig)
    → share_or_new pl o ≡ returns (false, share)
    → o ≡ some share
unfolding share_or_new
share_or_new_found pl none share h =
    let (path, made, e) =
      >>=-eq-returns (Paths.share pl) (λ path. returns (true, new_simple_share path)) h in
    cc
share_or_new_found pl (some c) share h = cc

module _ (pl : Planner) (s : SambaContainerConfig) where
  pub found_share :
      (share : ShareConfig)
      → find_share pl s ≡ returns (false, share)
      → lookup (share_name pl) s.shares ≡ some share
  unfolding find_share
  found_share share h = share_or_new_found pl (lookup (share_name pl) s.shares) share h

  -- The state before the section, and whether anything had changed by then.
  abbrev pub after_globals : SambaContainerConfig
  after_globals = (customize_globals pl (add_globals pl s).1).1

  abbrev pub after_share : ShareConfig → SambaContainerConfig
  after_share share = record after_globals {
    shares =
        insert (share_name pl) (configure_share share pl.smb_share.spec).1 after_globals.shares;
  }

  abbrev pub changed_before : Bool → ShareConfig → Bool
  changed_before made share =
      (add_globals pl s).0
      || made
      || (customize_globals pl (add_globals pl s).1).0
      || (configure_share share pl.smb_share.spec).0

  pub record UpdateSteps (r : Change) : Type 0 where
    pub found : Bool × ShareConfig
    pub found_eq : find_share pl (add_globals pl s).1 ≡ returns found
    pub stored : Change
    pub stored_eq :
        update_section pl (changed_before found.0 found.1) (after_share found.1) ≡ returns stored
    pub realm_set : Change
    pub realm_eq : add_realm pl (add_users stored.1).1 ≡ returns realm_set
    pub result : r ≡ (stored.0 || (add_users stored.1).0 || realm_set.0, realm_set.1)

  pub update_steps : (r : Change) → update pl s ≡ returns r → UpdateSteps r
  unfolding update
  update_steps r h =
      let (found, found_eq, rest) = >>=-eq-returns (find_share pl (add_globals pl s).1) _ h in
      let (stored, stored_eq, rest') =
        >>=-eq-returns (update_section pl (changed_before found.0 found.1) (after_share found.1)) _
          rest in
      let (realm_set, realm_eq, rest_eq) =
        >>=-eq-returns (add_realm pl (add_users stored.1).1) _ rest' in
      record {
        found = found;
        found_eq = found_eq;
        stored = stored;
        stored_eq = stored_eq;
        realm_set = realm_set;
        realm_eq = realm_eq;
        result = cc;
      }

  -- Where each map of the result comes from.
  pub record Origins (r : Change) (u : UpdateSteps r) : Type 0 where
    pub configs : r.1.configs ≡ u.stored.1.configs
    pub shares : r.1.shares ≡ (after_share u.found.1).shares
    pub users : r.1.users ≡ (add_users u.stored.1).1.users
    pub globals : r.1.globals ≡ u.realm_set.1.globals
    pub globals_before : (add_users u.stored.1).1.globals ≡ after_globals.globals

  pub origins : (r : Change) (u : UpdateSteps r) → Origins r u
  origins r u =
      let last : r.1 ≡ u.realm_set.1 = ap (λ (t : Change). t.1) u.result in
      let by_realm = add_realm_frame pl (add_users u.stored.1).1 u.realm_set u.realm_eq in
      let by_users = add_users_frame pl u.stored.1 in
      let by_section =
        update_section_frame pl (after_share u.found.1) (changed_before u.found.0 u.found.1)
          u.stored u.stored_eq in
      record {
        configs = cc (last, by_realm, by_users);
        shares = cc (last, by_realm, by_users, by_section);
        users = cc (last, by_realm);
        globals = cc last;
        globals_before = cc (by_users, by_section);
      }
