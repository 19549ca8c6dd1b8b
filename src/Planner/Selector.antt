-- ===== src/Planner/Selector.antt =====
-- internal/planner/selector.go. Decoding a JSON object of strings, which `encoding/json` does, is
-- an argument; `none` is its error.
pub mod Decodes
use samba_operator.Base.{String, ◌==◌, Bool, true, false, Option, none, some, [], ◌∷◌}
use samba_operator.Base.{if◌then◌else◌}
use samba_operator.Base.Dict.{Dict}
use samba_operator.Api.SmbCommonConfig.{SmbCommonConfig}
use samba_operator.Conf.{OperatorConfig}
use samba_operator.Planner.Instance.{Planner}

abbrev pub builtin_default_node_selector : Dict String
builtin_default_node_selector = ("kubernetes.io/os", "linux") ∷ ("kubernetes.io/arch", "amd64") ∷ []

-- The selector of the pod settings, which is `nil` or empty where none is given.
custom_selector : Option SmbCommonConfig → Dict String
custom_selector none = []
custom_selector (some c) = elim c.spec.pod_settings [ none ↦ [] | some ps ↦ ps.node_selector ]

module _ (unmarshal : String → Option (Dict String)) where
  operator_selector : String → Dict String × Bool
  operator_selector configured =
      if configured == ""
      then (builtin_default_node_selector, false)
      else elim (unmarshal configured) [
        | none ↦ (builtin_default_node_selector, true)
        | some nsel ↦ (nsel, false)
      ]

  -- The share is not read, and may be missing.
  unfoldable pub selector_of : Option SmbCommonConfig → OperatorConfig → Dict String × Bool
  unfolding custom_selector operator_selector
  selector_of common cfg = elim (custom_selector common) [
    | [] ↦ operator_selector cfg.default_node_selector
    | l ∷ ls ↦ (l ∷ ls, false)
  ]

  -- The labels, and whether there was an error.
  unfoldable pub node_selector : Planner → Dict String × Bool
  unfolding selector_of
  node_selector pl = selector_of pl.common_config pl.global_config
