-- ===== src/Planner/Configuration/ShareOptions.antt =====
-- The options of a share after `applyCustomShare` and `applyShareValues`.
use samba_operator.Base.{String, ◌≡◌, ◌≢◌, ◌==◌, Bool, true, false}
use samba_operator.Base.{some, arith, if◌then◌else◌, ◌⊎◌, inl, inr}
use samba_operator.Base.Dict.{lookup, NodupKeys}
use samba_operator.Smbcc.{
  SmbOptions, ShareConfig, browseable_param, read_only_param, yes_value, no_value,
}
use samba_operator.Api.SmbShare.{SmbShareSpec}
use samba_operator.Planner.Configuration.{
  custom_options, configure_share, browseable_value, read_only_value, apply_configs, set_option,
}
use samba_operator.Planner.Configuration.Applied.{
  Applied, lookup-Applied, override, apply_configs_settled, apply_configs_unchanged,
  lookup-apply_configs, Applied-apply_configs, set_option_settled, set_option_unchanged,
  lookup-set_option, Applied-set_option,
}

-- The share has every value that its resource asks for.
pub record ShareSettled (spec : SmbShareSpec) (share : ShareConfig) : Type 0 where
  pub custom : Applied (custom_options spec) share.options
  pub browseable : lookup browseable_param share.options ≡ some (browseable_value spec)
  pub read_only : lookup read_only_param share.options ≡ some (read_only_value spec)

-- The custom options do not gainsay the two fields of the resource.
pub record NoConflict (spec : SmbShareSpec) : Type 0 where
  pub browseable :
      (w : String)
      → lookup browseable_param (custom_options spec) ≡ some w
      → w ≡ browseable_value spec
  pub read_only :
      (w : String)
      → lookup read_only_param (custom_options spec) ≡ some w
      → w ≡ read_only_value spec

-- The custom options gainsay one of the two fields.
abbrev pub Conflict : SmbShareSpec → Type 0
Conflict spec =
    ((w : String) × (lookup browseable_param (custom_options spec) ≡ some w)
      × (w ≢ browseable_value spec))
    ⊎ ((w : String) × (lookup read_only_param (custom_options spec) ≡ some w)
        × (w ≢ read_only_value spec))

flag_given : (b : Bool) → (if b then yes_value else no_value) ≢ ""
flag_given true e = cc
flag_given false e = cc

module _ (spec : SmbShareSpec) where
  browseable_given : browseable_value spec ≢ ""
  browseable_given = flag_given spec.browseable

  read_only_given : read_only_value spec ≢ ""
  read_only_given = flag_given spec.read_only

  pub configure_share_settled :
      (share : ShareConfig) → ShareSettled spec share → configure_share share spec ≡ (false, share)
  unfolding configure_share
  configure_share_settled share h =
      rw (apply_configs_settled false share.options (custom_options spec) h.custom) (
        rw (set_option_settled _ _ share.options h.browseable)
          (rw (set_option_settled _ _ share.options h.read_only)))

  pub lookup-configure_share :
      (share : ShareConfig) (j : String)
      → NodupKeys (custom_options spec)
      → lookup j (configure_share share spec).1.options ≡ (
          if read_only_param == j
          then some (read_only_value spec)
          else if browseable_param == j
          then some (browseable_value spec)
          else override (lookup j (custom_options spec)) (lookup j share.options))
  unfolding configure_share
  lookup-configure_share share j u = rw (lookup-set_option _ _ _ read_only_given j) (
      rw (lookup-set_option _ _ _ browseable_given j)
        (rw (lookup-apply_configs false share.options (custom_options spec) j u)))

  pub configure_share_unchanged :
      (share : ShareConfig)
      → (configure_share share spec).0 ≡ false
      → ShareSettled spec share × ((configure_share share spec).1 ≡ share)
  unfolding configure_share
  configure_share_unchanged share h =
      let o : SmbOptions = share.options in
      let o₁ = (apply_configs false o (custom_options spec)).1 in
      let o₂ = (set_option browseable_param (browseable_value spec) o₁).1 in
      ground (
        arith,
        apply_configs_unchanged false o (custom_options spec),
        set_option_unchanged browseable_param (browseable_value spec) o₁ browseable_given,
        set_option_unchanged read_only_param (read_only_value spec) o₂ read_only_given,
      )

  settled_browseable :
      (share : ShareConfig)
      → NodupKeys (custom_options spec)
      → lookup browseable_param (configure_share share spec).1.options
        ≡ some (browseable_value spec)
  settled_browseable share u = rw (lookup-configure_share share browseable_param u)

  settled_read_only :
      (share : ShareConfig)
      → NodupKeys (custom_options spec)
      → lookup read_only_param (configure_share share spec).1.options ≡ some (read_only_value spec)
  settled_read_only share u = rw (lookup-configure_share share read_only_param u)

  pub ShareSettled-configure_share :
      (share : ShareConfig)
      → NodupKeys (custom_options spec)
      → NoConflict spec
      → ShareSettled spec (configure_share share spec).1
  unfolding configure_share
  ShareSettled-configure_share share u n = record {
    custom = Applied-set_option _ _ _ read_only_given (custom_options spec) n.read_only u (
        Applied-set_option _ _ _ browseable_given (custom_options spec) n.browseable u
          (Applied-apply_configs false share.options (custom_options spec) u));
    browseable = settled_browseable share u;
    read_only = settled_read_only share u;
  }

  -- A share never has both the custom value and the field's.
  pub not-ShareSettled_of_Conflict :
      (share : ShareConfig) → Conflict spec → ¬ ShareSettled spec share
  not-ShareSettled_of_Conflict share (inl (w, e, ne)) h =
      ground
        (arith, lookup-Applied browseable_param w (custom_options spec) share.options h.custom e)
  not-ShareSettled_of_Conflict share (inr (w, e, ne)) h =
      ground
        (arith, lookup-Applied read_only_param w (custom_options spec) share.options h.custom e)
