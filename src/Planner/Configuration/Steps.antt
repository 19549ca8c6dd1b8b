-- ===== src/Planner/Configuration/Steps.antt =====
-- The steps of `Update` other than the share's options: when each changes nothing, and what each
-- leaves behind.
use samba_operator.Base.{String, ◌≡◌, refl, true, false}
use samba_operator.Base.{Option, none, some, [], arith, Bool-cases, Option-cases, inl, inr, is_some}
use samba_operator.Base.Dict.{Dict, lookup, lookup-insert, NodupKeys, insert_same}
use samba_operator.Base.Panics.{returns}
use samba_operator.Smbcc.{SambaContainerConfig, ConfigSection, GlobalConfig, globals_key}
use samba_operator.Api.SmbCommonConfig.{SmbCommonConfig}
use samba_operator.Planner.Instance.{Planner}
use samba_operator.Planner.Properties.{ad_mode, security_mode, realm}
use samba_operator.Planner.Configuration.{
  custom_globals, apply_custom_global, add_globals, customize_globals, customize_with,
  customize_section, has_share, instance_id, share_name,
}
use samba_operator.Planner.Configuration.Applied.{
  Applied, apply_configs_settled, apply_configs_unchanged, Applied-apply_configs,
}

-- The global options that the common configuration asks for.
abbrev pub options_of : Option SmbCommonConfig → Dict String
options_of none = []
options_of (some c) = custom_globals c.spec

abbrev pub common_options : Planner → Dict String
common_options pl = options_of pl.common_config

-- The default globals are there, with the user's options.
abbrev pub HasGlobals : Dict String → SambaContainerConfig → Type 0
HasGlobals cs s =
    (g : GlobalConfig) × (lookup globals_key s.globals ≡ some g) × Applied cs g.options

abbrev pub GlobalsSettled : Planner → SambaContainerConfig → Type 0
GlobalsSettled pl s = HasGlobals (common_options pl) s

-- The instance has a section, and the share is listed there.
abbrev pub SectionSettled : Planner → SambaContainerConfig → Type 0
SectionSettled pl s =
    (cfg : ConfigSection) × (lookup (instance_id pl) s.configs ≡ some cfg)
    × (has_share cfg (share_name pl) ≡ true)

-- In AD mode the realm has globals.
abbrev pub RealmSettled : Planner → SambaContainerConfig → Type 0
RealmSettled pl s =
    (r : String)
    → security_mode pl ≡ ad_mode
    → realm pl ≡ returns r
    → is_some (lookup r s.globals) ≡ true

module _ (pl : Planner) (s : SambaContainerConfig) where
  pub add_globals_settled :
      is_some (lookup globals_key s.globals) ≡ true → add_globals pl s ≡ (false, s)
  unfolding add_globals
  add_globals_settled h = ground arith

  pub add_globals_unchanged :
      (add_globals pl s).0 ≡ false
      → (is_some (lookup globals_key s.globals) ≡ true) × ((add_globals pl s).1 ≡ s)
  unfolding add_globals
  add_globals_unchanged h = ground arith

  pub add_globals_there : is_some (lookup globals_key (add_globals pl s).1.globals) ≡ true
  unfolding add_globals
  add_globals_there = elim (Bool-cases (is_some (lookup globals_key s.globals))) [
    | inl e ↦ rw e e
    | inr e ↦ rw e (rw lookup-insert)
  ]

module _ (s : SambaContainerConfig) where
  customize_with_settled :
      (c : Option SmbCommonConfig) → HasGlobals (options_of c) s → customize_with c s ≡ (false, s)
  unfolding customize_with
  customize_with_settled none h = refl
  customize_with_settled (some c) (g, found, a) = rw found (
      rw (apply_configs_settled false g.options (custom_globals c.spec) a)
        (rw (insert_same globals_key g s.globals found)))

  customize_with_unchanged :
      (c : Option SmbCommonConfig) (g : GlobalConfig)
      → lookup globals_key s.globals ≡ some g
      → (customize_with c s).0 ≡ false
      → Applied (options_of c) g.options × ((customize_with c s).1 ≡ s)
  unfolding customize_with
  customize_with_unchanged none g found h = (tt, refl)
  customize_with_unchanged (some c) g found h = ground (
    arith,
    apply_configs_unchanged false g.options (custom_globals c.spec),
    insert_same globals_key g s.globals found,
  )

  HasGlobals-customize_with :
      (c : Option SmbCommonConfig) (g : GlobalConfig)
      → lookup globals_key s.globals ≡ some g
      → NodupKeys (options_of c)
      → HasGlobals (options_of c) (customize_with c s).1
  unfolding customize_with
  HasGlobals-customize_with none g found u = (g, found, tt)
  HasGlobals-customize_with (some c) g found u =
      rw (found, customize_section)
        (
          (apply_custom_global g c.spec).1,
          rw lookup-insert,
          Applied-apply_configs false g.options (custom_globals c.spec) u,
        )

module _ (pl : Planner) (s : SambaContainerConfig) where
  pub customize_globals_settled : GlobalsSettled pl s → customize_globals pl s ≡ (false, s)
  unfolding customize_globals
  customize_globals_settled h = customize_with_settled s pl.common_config h

  pub customize_globals_unchanged :
      is_some (lookup globals_key s.globals) ≡ true
      → (customize_globals pl s).0 ≡ false
      → GlobalsSettled pl s × ((customize_globals pl s).1 ≡ s)
  unfolding customize_globals
  customize_globals_unchanged there h = elim (Option-cases (lookup globals_key s.globals)) [
    | inl absent ↦ absurd (cc (there, absent))
    | inr (g, found) ↦
        let (applied, same) = customize_with_unchanged s pl.common_config g found h in
        ((g, found, applied), same)
  ]

  pub GlobalsSettled-customize_globals :
      is_some (lookup globals_key s.globals) ≡ true
      → NodupKeys (common_options pl)
      → GlobalsSettled pl (customize_globals pl s).1
  unfolding customize_globals
  GlobalsSettled-customize_globals there u = elim (Option-cases (lookup globals_key s.globals)) [
    | inl absent ↦ absurd (cc (there, absent))
    | inr (g, found) ↦ HasGlobals-customize_with s pl.common_config g found u
  ]

  -- Only the globals are written.
  pub customize_globals_frame :
      (customize_globals pl s).1 ≡ record s { globals = (customize_globals pl s).1.globals }
  unfolding customize_globals customize_with
  customize_globals_frame = ground arith

  pub add_globals_frame : (add_globals pl s).1 ≡ record s { globals = (add_globals pl s).1.globals }
  unfolding add_globals
  add_globals_frame = ground arith
