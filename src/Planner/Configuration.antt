-- ===== src/Planner/Configuration.antt =====
-- internal/planner/configuration.go: `Update` and `Prune` of the container configuration. Both are
-- functions of the configuration that return it anew; their error is always nil and is left out.
-- A `ShareConfig` and the entry of the map that it was read from share one options map in the
-- source, so what is written to the one is here written back to the other.
mod Idmap
mod Options
pub mod Applied
pub mod ShareOptions
pub mod Steps
pub mod Section
pub mod Realm
pub mod UpdateSteps
pub mod Converges
pub mod Faults
pub mod Frame
pub mod Prune
pub mod Group
pub mod RoundTrip
unfoldable pub use Idmap.*
unfoldable pub use Options.*
use samba_operator.Base.{String, ◌==◌, ◌!=◌, Bool, true, false, ◌||◌, Option, none, some}
use samba_operator.Base.{List, [], ◌∷◌, ◌++◌, if◌then◌else◌, is_some, contains}
use samba_operator.Base.Dict.{lookup, insert, erase}
use samba_operator.Base.Panics.{Run, returns, ◌>>=◌}
use samba_operator.Smbcc.{
  Key, SambaContainerConfig, ConfigSection, ShareConfig, GlobalConfig, globals_key,
  new_global_options, new_globals, new_simple_share, new_permissions_config, new_default_users,
  ctdb,
}
use samba_operator.Api.SmbCommonConfig.{SmbCommonConfig, SmbCommonConfigSpec}
use samba_operator.Planner.Instance.{Planner}
use samba_operator.Planner.Properties.{
  ad_mode, instance_name, security_mode, realm, workgroup, is_clustered,
}
use samba_operator.Planner.Paths

unfoldable pub instance_id : Planner → Key
unfolding instance_name
instance_id pl = instance_name pl

unfoldable pub share_name : Planner → String
share_name pl =
    if pl.smb_share.spec.share_name != ""
    then pl.smb_share.spec.share_name
    else pl.smb_share.metadata.name

unfoldable pub has_share : ConfigSection → Key → Bool
has_share cfg k = contains cfg.shares k

-- The first `k` is taken out; the flag says whether there was one.
unfoldable take_out : Key → List Key → List Key × Bool
take_out k [] = ([], false)
take_out k (x ∷ xs) =
    let (rest, found) = take_out k xs in if x == k then (xs, true) else (x ∷ rest, found)

unfoldable pub remove_share : ConfigSection → Key → ConfigSection × Bool
unfolding take_out
remove_share cfg k =
    let (shares, found) = take_out k cfg.shares in (record cfg { shares = shares }, found)

abbrev pub Change : Type 0
Change = Bool × SambaContainerConfig

-- The default section of globals.
unfoldable pub add_globals : Planner → SambaContainerConfig → Change
unfolding lookup insert new_globals
add_globals pl s =
    let options = record new_global_options { smb_port = pl.global_config.smbd_port } in
    if is_some (lookup globals_key s.globals)
    then (false, s)
    else (true, record s { globals = insert globals_key (new_globals options) s.globals })

-- The section of the share. Its path is worked out only where it has none.
share_or_new : Planner → Option ShareConfig → Run (Bool × ShareConfig)
unfolding new_simple_share Paths.share
share_or_new pl none = do path ← Paths.share pl; returns (true, new_simple_share path)
share_or_new pl (some share) = returns (false, share)

unfoldable pub find_share : Planner → SambaContainerConfig → Run (Bool × ShareConfig)
unfolding share_or_new share_name lookup
find_share pl s = share_or_new pl (lookup (share_name pl) s.shares)

-- The user's global options, in the default section. That section is there: `add_globals` was
-- called before.
customize_section : SmbCommonConfigSpec → SambaContainerConfig → Option GlobalConfig → Change
unfolding insert apply_custom_global
customize_section spec s none = (false, s)
customize_section spec s (some g) =
    let (changed, g') = apply_custom_global g spec in
    (changed, record s { globals = insert globals_key g' s.globals })

customize_with : Option SmbCommonConfig → SambaContainerConfig → Change
unfolding customize_section lookup
customize_with none s = (false, s)
customize_with (some c) s = customize_section c.spec s (lookup globals_key s.globals)

unfoldable pub customize_globals : Planner → SambaContainerConfig → Change
unfolding customize_with
customize_globals pl s = customize_with pl.common_config s

-- A new section of the instance; AD mode has one more key of globals.
section_of : Planner → List Key → ConfigSection
unfolding share_name instance_name is_clustered
section_of pl extra = record {
  shares = share_name pl ∷ [];
  globals = globals_key ∷ extra;
  instance_name = instance_name pl;
  instance_features = if is_clustered pl then ctdb ∷ [] else [];
  permissions = new_permissions_config;
}

new_section : Planner → Run ConfigSection
unfolding section_of security_mode realm
new_section pl =
    let with_realm : Run ConfigSection = (do r ← realm pl; returns (section_of pl (r ∷ []))) in
    if security_mode pl == ad_mode then with_realm else returns (section_of pl [])

section_or_new : Planner → Option ConfigSection → Run (Bool × ConfigSection)
unfolding new_section
section_or_new pl none = do cfg ← new_section pl; returns (true, cfg)
section_or_new pl (some cfg) = returns (false, cfg)

find_section : Planner → SambaContainerConfig → Run (Bool × ConfigSection)
unfolding instance_id lookup section_or_new
find_section pl s = section_or_new pl (lookup (instance_id pl) s.configs)

add_share : Key → ConfigSection → Bool × ConfigSection
unfolding has_share
add_share k cfg =
    if has_share cfg k then (false, cfg) else (true, record cfg { shares = cfg.shares ++ k ∷ [] })

-- The section is stored if anything has changed so far.
store_section : Planner → Bool → ConfigSection → SambaContainerConfig → Change
unfolding insert instance_id
store_section pl changed cfg s =
    (changed, (if changed then record s { configs = insert (instance_id pl) cfg s.configs } else s))

-- The section of the instance, with the share in it.
unfoldable pub update_section : Planner → Bool → SambaContainerConfig → Run Change
unfolding find_section add_share store_section share_name
update_section pl changed s = do
  (made, cfg) ← find_section pl s
  let (added, cfg') = add_share (share_name pl) cfg
  returns (store_section pl (changed || made || added) cfg' s)

unfoldable pub add_users : SambaContainerConfig → Change
add_users s = elim s.users [
  | [] ↦ (true, record s { users = new_default_users })
  | u ∷ us ↦ (false, s)
]

-- The globals of a realm. The workgroup is worked out from the realm.
realm_section : Planner → String → String → GlobalConfig
unfolding idmap_options insert
realm_section pl w r = record {
  options = insert "realm" r (insert "workgroup" w (insert "security" "ads" (idmap_options pl)));
}

realm_globals : Planner → SambaContainerConfig → Run Change
unfolding realm_section realm workgroup lookup insert
realm_globals pl s = do
  r ← realm pl
  let fresh : Run Change = (do
    w ← workgroup pl
    r' ← realm pl
    returns (true, record s { globals = insert r (realm_section pl w r') s.globals }))
  if is_some (lookup r s.globals) then returns (false, s) else fresh

-- The globals of the realm, in AD mode.
unfoldable pub add_realm : Planner → SambaContainerConfig → Run Change
unfolding realm_globals security_mode
add_realm pl s = if security_mode pl == ad_mode then realm_globals pl s else returns (false, s)

unfoldable pub update : Planner → SambaContainerConfig → Run Change
unfolding add_globals find_share customize_globals apply_custom_share apply_share_values share_name
    insert update_section add_users add_realm
update pl s = do
  let (added, s₁) = add_globals pl s
  (made, share) ← find_share pl s₁
  let (globals_set, s₂) = customize_globals pl s₁
  let (share_set, share') = configure_share share pl.smb_share.spec
  let s₃ = record s₂ { shares = insert (share_name pl) share' s₂.shares }
  (changed, s₄) ← update_section pl (added || made || globals_set || share_set) s₃
  let (users_set, s₅) = add_users s₄
  (realm_set, s₆) ← add_realm pl s₅
  returns (changed || users_set || realm_set, s₆)

prune_found : Planner → SambaContainerConfig → Option ConfigSection → Change
unfolding instance_id share_name insert remove_share
prune_found pl s none = (false, s)
prune_found pl s (some cfg) =
    let (cfg', removed) = remove_share cfg (share_name pl) in
    if removed
    then (true, record s { configs = insert (instance_id pl) cfg' s.configs })
    else (false, s)

-- The share is taken out of the section of the instance, if there is one.
unfoldable prune_section : Planner → SambaContainerConfig → Change
unfolding prune_found instance_id lookup
prune_section pl s = prune_found pl s (lookup (instance_id pl) s.configs)

unfoldable pub prune : Planner → SambaContainerConfig → Change
unfolding prune_section share_name lookup erase
prune pl s =
    let (removed, s₁) = prune_section pl s in
    if is_some (lookup (share_name pl) s₁.shares)
    then (true, record s₁ { shares = erase (share_name pl) s₁.shares })
    else (removed, s₁)
