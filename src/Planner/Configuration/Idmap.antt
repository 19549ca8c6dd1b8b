-- ===== src/Planner/Configuration/Idmap.antt =====
-- `idmapOptions`: ID mapping for the domains of a security configuration.
use samba_operator.Base.{ℕ, ◌+◌, ◌-◌, ◌*◌, String, ◌<>◌, ◌==◌, Bool, false, ◌||◌}
use samba_operator.Base.{none, some, List, [], ◌∷◌, ◌++◌, if◌then◌else◌}
use samba_operator.Base.Dict.{insert}
use samba_operator.Base.Decimal.{itoa}
use samba_operator.Smbcc.{SmbOptions}
use samba_operator.Api.SmbSecurityConfig.{SmbSecurityDomainSpec}
use samba_operator.Planner.Instance.{Planner}

abbrev pub step : ℕ
step = 10000

-- The first ID of the domain at an index.
abbrev pub range_start : ℕ → ℕ
range_start i = i * step + 2000

abbrev pub range_text : ℕ → String
range_text i = itoa (range_start i) <> ("-" <> itoa (range_start i + step - 1))

abbrev pub prefix_of : SmbSecurityDomainSpec → String
prefix_of d = "idmap config " <> (d.name <> " : ")

-- One round of the loop over the domains.
unfoldable pub put_domain : ℕ → SmbSecurityDomainSpec → SmbOptions → SmbOptions
unfolding insert itoa
put_domain i d o =
    let pfx = prefix_of d in
    let o' : SmbOptions =
      if d.backend == "autorid"
      then insert (pfx <> "backend") "autorid" o
      else insert (pfx <> "schema_mode") "rfc2307" (insert (pfx <> "backend") "ad" o) in
    insert (pfx <> "range") (range_text i) o'

unfoldable pub put_domains : ℕ → List SmbSecurityDomainSpec → SmbOptions → SmbOptions
unfolding put_domain
put_domains i [] o = o
put_domains i (d ∷ ds) o = put_domains (i + 1) ds (put_domain i d o)

abbrev pub has_default : List SmbSecurityDomainSpec → Bool
has_default [] = false
has_default (d ∷ ds) = d.name == "*" || has_default ds

abbrev pub default_domain : SmbSecurityDomainSpec
default_domain = record { name = "*"; backend = "autorid" }

unfoldable pub with_default : List SmbSecurityDomainSpec → List SmbSecurityDomainSpec
with_default ds = if has_default ds then ds else ds ++ default_domain ∷ []

abbrev default_options : SmbOptions
default_options =
    ("idmap config * : backend", "autorid") ∷ ("idmap config * : range", "2000-9999999") ∷ []

domain_options : List SmbSecurityDomainSpec → SmbOptions
unfolding put_domains with_default
domain_options [] = default_options
domain_options (d ∷ ds) = put_domains 0 (with_default (d ∷ ds)) []

unfoldable pub idmap_options : Planner → SmbOptions
unfolding domain_options
idmap_options pl = elim pl.security_config [
  | none ↦ default_options
  | some c ↦ domain_options c.spec.domains
]
