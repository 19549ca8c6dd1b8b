-- ===== src/Controllers.antt =====
-- main.go and controllers: the start of the operator, and the calls of the controller runtime. Logging
-- is left out. The runtime's own calls are parameters that answer with an error, if any.
pub mod Started
use samba_operator.Base.{
  String, Bool, true, false, Option, none, some, if◌then◌else◌, List, [], ◌∷◌,
}
use samba_operator.Base.Dict.{Dict}
use samba_operator.Base.Panics.{Run, returns, panics}
use samba_operator.Api.Meta.{NamespacedName}
use samba_operator.Conf.{OperatorConfig, validate}
use samba_operator.Conf.Source.{Viper, Source, new_source, flags, load}
use samba_operator.Planner.Selector.{selector_of}
use samba_operator.Resources.Outcome.{Error, Result}
use samba_operator.Resources.Platform.{Platform}
use samba_operator.Resources.Reconcile.{process}

-- ctrl.Result
pub record Answer : Type 0 where
  pub requeue : Bool

-- The answer and the error of a reconciliation.
unfoldable pub answer_of : Result → Answer × Option Error
answer_of r = (record { requeue = r.requeue }, r.err)

answered :
    {W : Type 0}
    → W × OperatorConfig × Run Result
    → W × OperatorConfig × Run (Answer × Option Error)
unfolding answer_of
answered (w, cfg, returns r) = (w, cfg, returns (answer_of r))
answered (w, cfg, panics) = (w, cfg, panics)

-- `Reconcile` of the controller of shares; the other two controllers do nothing.
unfoldable pub reconcile :
    {W : Type 0}
    → Platform W
    → W
    → OperatorConfig
    → NamespacedName
    → W × OperatorConfig × Run (Answer × Option Error)
unfolding answered process
reconcile p w cfg name = answered (process p w cfg name)

-- How the program ends: with an error before the manager is started, or with what `Start` of the
-- manager on these settings returns, which is an error where it could not run or ran into one.
pub data Ending : Type 0 where
  exits : String → Ending
  started : OperatorConfig → Option String → Ending

-- The manager and the three controllers are set up one after the other, and then it is started.
unfoldable pub run_manager : OperatorConfig → Option String → List (Option String) → Ending
run_manager cfg start [] = started cfg start
run_manager cfg start (none ∷ calls) = run_manager cfg start calls
run_manager cfg start (some e ∷ calls) = exits e

-- What the calls of the libraries return: the parsing of the flags, which ends the program where it
-- fails, `GetConfigOrDie`, which does so too, `NewManager`, the three `SetupWithManager` and `Start`.
pub record Runtime : Type 0 where
  pub parse_flags : Option String
  pub get_config : Option String
  pub new_manager : Option String
  pub set_up_shares : Option String
  pub set_up_security_configs : Option String
  pub set_up_common_configs : Option String
  pub start : Option String

-- The calls between the checks and the start.
unfoldable pub calls_of : Runtime → List (Option String)
calls_of rt =
    rt.get_config ∷ rt.new_manager ∷ rt.set_up_shares ∷ rt.set_up_security_configs
    ∷ rt.set_up_common_configs ∷ []

module _ (unmarshal : String → Option (Dict String)) (rt : Runtime) where
  after_selector : OperatorConfig → Dict String × Bool → Ending
  unfolding run_manager calls_of
  after_selector cfg (labels, true) = exits "invalid node selector configuration value"
  after_selector cfg (labels, false) = run_manager cfg rt.start (calls_of rt)

  after_validate : OperatorConfig → Option String → Ending
  unfolding after_selector selector_of
  after_validate cfg (some e) = exits e
  after_validate cfg none = after_selector cfg (selector_of unmarshal none cfg)

  after_load : Option OperatorConfig × Option String → Ending
  unfolding after_validate validate
  after_load (kept, some e) = exits e
  after_load (none, none) = exits "nil pointer dereference"
  after_load (some cfg, none) = after_validate cfg (validate cfg)

  after_parse : Option String → Viper → Source → Ending
  unfolding after_load load
  after_parse (some e) v s = exits e
  after_parse none v s = after_load (load v none s)

  -- `main`, whose settings come from the source of the defaults with its flags.
  unfoldable pub main : Viper → OperatorConfig → Ending
  unfolding after_parse flags new_source
  main v defaults = after_parse rt.parse_flags v (flags v (new_source defaults)).1
