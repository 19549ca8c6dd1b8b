-- ===== src/Planner/Configuration/Options.antt =====
-- The options that a share or the globals get from the resources.
use samba_operator.Base.{String, ◌!=◌, Bool, true, false, ◌||◌, none, some}
use samba_operator.Base.{[], ◌∷◌, if◌then◌else◌, or_zero}
use samba_operator.Base.Dict.{Dict, lookup, insert}
use samba_operator.Smbcc.{
  SmbOptions, ShareConfig, GlobalConfig, browseable_param, read_only_param, yes_value, no_value,
}
use samba_operator.Api.SmbShare.{SmbShareSpec}
use samba_operator.Api.SmbCommonConfig.{SmbCommonConfigSpec}

-- `!ok || (ok && oriValue != v)`
differs : SmbOptions → String → String → Bool
unfolding lookup
differs o k v = elim (lookup k o) [ none ↦ true | some w ↦ w != v ]

-- The loop over the custom options.
unfoldable pub apply_configs : Bool → SmbOptions → Dict String → Bool × SmbOptions
unfolding differs insert
apply_configs changed o [] = (changed, o)
apply_configs changed o ((k, v) ∷ configs) =
    apply_configs (changed || differs o k v) (if differs o k v then insert k v o else o) configs

-- The custom options that are to be applied: none, unless the user asks for them.
unfoldable pub custom_globals : SmbCommonConfigSpec → Dict String
custom_globals spec = elim spec.custom_global_config [
  | none ↦ []
  | some c ↦ if c.use_unsafe_custom_config then c.configs else []
]

unfoldable pub custom_options : SmbShareSpec → Dict String
custom_options spec = elim spec.custom_share_config [
  | none ↦ []
  | some c ↦ if c.use_unsafe_custom_config then c.configs else []
]

unfoldable pub apply_custom_global : GlobalConfig → SmbCommonConfigSpec → Bool × GlobalConfig
unfolding apply_configs custom_globals
apply_custom_global globals spec =
    let (changed, o) = apply_configs false globals.options (custom_globals spec) in
    (changed, record { options = o })

unfoldable pub apply_custom_share : ShareConfig → SmbShareSpec → Bool × ShareConfig
unfolding apply_configs custom_options
apply_custom_share share spec =
    let (changed, o) = apply_configs false share.options (custom_options spec) in
    (changed, record { options = o })

-- `if options[k] != v { options[k] = v; changed = true }`; a missing option reads as "".
unfoldable pub set_option : String → String → SmbOptions → Bool × SmbOptions
unfolding lookup insert
set_option k v o = if or_zero (lookup k o) != v then (true, insert k v o) else (false, o)

abbrev pub browseable_value : SmbShareSpec → String
browseable_value spec = if spec.browseable then yes_value else no_value

abbrev pub read_only_value : SmbShareSpec → String
read_only_value spec = if spec.read_only then yes_value else no_value

unfoldable pub apply_share_values : ShareConfig → SmbShareSpec → Bool × ShareConfig
unfolding set_option
apply_share_values share spec =
    let (browse_set, o₁) = set_option browseable_param (browseable_value spec) share.options in
    let (mode_set, o₂) = set_option read_only_param (read_only_value spec) o₁ in
    (browse_set || mode_set, record { options = o₂ })

-- Both, one after the other, as `Update` calls them.
unfoldable pub configure_share : ShareConfig → SmbShareSpec → Bool × ShareConfig
unfolding apply_custom_share apply_share_values
configure_share share spec =
    let (custom_set, share₁) = apply_custom_share share spec in
    let (values_set, share₂) = apply_share_values share₁ spec in (custom_set || values_set, share₂)
