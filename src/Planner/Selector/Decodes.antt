-- ===== src/Planner/Selector/Decodes.antt =====
-- The operator's own selector is the only one that may not decode.
use samba_operator.Base.{◌≡◌, refl, String, false, Option, none, [], ◌∷◌}
use samba_operator.Base.Dict.{Dict}
use samba_operator.Api.SmbCommonConfig.{SmbCommonConfig}
use samba_operator.Conf.{OperatorConfig}
use samba_operator.Planner.Selector.{custom_selector, operator_selector, selector_of}

module _ (unmarshal : String → Option (Dict String)) where
  selects_by :
      (labels : Dict String) (cfg : OperatorConfig) (common : Option SmbCommonConfig)
      → custom_selector common ≡ labels
      → (operator_selector unmarshal cfg.default_node_selector).1 ≡ false
      → (selector_of unmarshal common cfg).1 ≡ false
  unfolding selector_of
  selects_by [] cfg common e h = rw (e, selector_of) h
  selects_by (l ∷ ls) cfg common e h = rw (e, selector_of) refl

  -- Where it decodes, no common configuration makes an error.
  pub selector_of-none :
      (cfg : OperatorConfig) (common : Option SmbCommonConfig)
      → (selector_of unmarshal none cfg).1 ≡ false
      → (selector_of unmarshal common cfg).1 ≡ false
  unfolding selector_of
  selector_of-none cfg common h = selects_by (custom_selector common) cfg common refl h
