-- ===== src/Conf/Source/Defaults.antt =====
-- The settings where only the defaults have them.
use samba_operator.Base.{◌≡◌, refl, sym, subst, String, Option, none, some, List, All}
use samba_operator.Base.Dict.{Dict, lookup}
use samba_operator.Conf.{OperatorConfig}
use samba_operator.Conf.Source.{
  Setting, Viper, file_not_found, loaded, default_settings, tagged, new_source, flags, collected,
  bound, after_file, read, unless_refused,
}

-- The values have what the tags of a configuration's fields ask for.
abbrev pub Holds : Dict Setting → Dict Setting → Type 0
Holds wanted m = All (λ (k, x). lookup k m ≡ some x) wanted

-- What viper does where no other source has a value: no file is there to be read, the flags bind,
-- the values are the defaults, and a configuration whose fields are all there is what is decoded.
pub record DefaultsOnly (v : Viper) : Type 0 where
  pub no_file : v.read_in_config ≡ some file_not_found
  pub binds : (names : List String) → v.bind_flags names ≡ none
  pub collects : (m : Dict Setting) (names : Option (List String)) → v.collect m names ≡ m
  pub decodes :
      (m : Dict Setting) (c : OperatorConfig) → Holds (tagged c) m → v.unmarshal m ≡ loaded c

defaults-Holds : (c : OperatorConfig) → Holds (tagged c) (default_settings c)
unfolding tagged default_settings lookup
defaults-Holds c = (
  refl,
  (
    refl,
    (
      refl,
      (
        refl,
        (
          refl,
          (
            refl,
            (
              refl,
              (
                refl,
                (
                  refl,
                  (
                    refl,
                    (refl, (refl, (refl, (refl, (refl, (refl, (refl, (refl, (refl, tt))))))))),
                  ),
                ),
              ),
            ),
          ),
        ),
      ),
    ),
  ),
)

module _ (v : Viper) (only : DefaultsOnly v) where
  collected-defaults :
      (c : OperatorConfig) (names : Option (List String))
      → collected v (record { defaults = default_settings c; flag_names = names }) ≡ loaded c
  unfolding collected
  collected-defaults c names =
      only.decodes (v.collect (default_settings c) names) c (
        subst (Holds (tagged c)) (sym (only.collects (default_settings c) names))
          (defaults-Holds c))

  bound-defaults :
      (c : OperatorConfig) (names : Option (List String))
      → bound v (record { defaults = default_settings c; flag_names = names }) names ≡ loaded c
  unfolding bound unless_refused
  bound-defaults c none = collected-defaults c none
  bound-defaults c (some names) = rw (only.binds names) (collected-defaults c (some names))

  read-defaults :
      (c : OperatorConfig) (names : Option (List String))
      → read v (record { defaults = default_settings c; flag_names = names }) ≡ loaded c
  unfolding read after_file
  read-defaults c names = rw only.no_file (bound-defaults c names)

  -- Where no other source has a value, what is read is what the source was made of, every field of
  -- it, whether its flags were asked for before or not.
  pub read-new_source :
      (c : OperatorConfig)
      → (read v (new_source c) ≡ loaded c) × (read v (flags v (new_source c)).1 ≡ loaded c)
  unfolding new_source flags
  read-new_source c =
      (read-defaults c none, read-defaults c (some (v.all_keys (default_settings c))))
