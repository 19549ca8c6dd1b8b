-- ===== src/Controllers/Started.antt =====
-- On which settings the manager is started.
use samba_operator.Base.{
  ◌≡◌, refl, ap, subst, ◌∙◌, ◌↔◌, String, Bool, true, false, Option, none, some, List, [], ◌∷◌, All,
}
use samba_operator.Base.Dict.{Dict}
use samba_operator.Api.SmbCommonConfig.{SmbCommonConfig}
use samba_operator.Conf.{OperatorConfig, validate}
use samba_operator.Conf.Source.{
  Source, Viper, Loaded, loaded, refused, new_source, flags, read, load, keep_loaded,
}
use samba_operator.Planner.Selector.{selector_of}
use samba_operator.Planner.Selector.Decodes.{selector_of-none}
use samba_operator.Controllers.{
  started, Runtime, calls_of, run_manager, after_selector, after_validate, after_load, after_parse,
  main,
}

abbrev pub Succeeds : List (Option String) → Type 0
Succeeds calls = All (λ call. call ≡ none) calls

run_manager-ran :
    (cfg cfg' : OperatorConfig) (start err : Option String) (calls : List (Option String))
    → run_manager cfg start calls ≡ started cfg' err
    → (cfg ≡ cfg') × (start ≡ err) × Succeeds calls
unfolding run_manager
run_manager-ran cfg cfg' start err [] h = (cc h, cc h, tt)
run_manager-ran cfg cfg' start err (none ∷ calls) h =
    let (same, is, rest) = run_manager-ran cfg cfg' start err calls h in (same, is, (refl, rest))
run_manager-ran cfg cfg' start err (some e ∷ calls) h = cc

run_manager_runs :
    (cfg : OperatorConfig) (start : Option String) (calls : List (Option String))
    → Succeeds calls
    → run_manager cfg start calls ≡ started cfg start
unfolding run_manager
run_manager_runs cfg start [] all = refl
run_manager_runs cfg start (none ∷ calls) (e, all) = run_manager_runs cfg start calls all
run_manager_runs cfg start (some e ∷ calls) (h, all) = cc

module _ (unmarshal : String → Option (Dict String)) (rt : Runtime) where
  -- `Validate` finds no fault, the node selector decodes whatever the common configuration of a
  -- share, and none of the calls before the start fails.
  abbrev pub Ready : OperatorConfig → Type 0
  Ready cfg =
      (validate cfg ≡ none)
      × ((common : Option SmbCommonConfig) → (selector_of unmarshal common cfg).1 ≡ false)
      × Succeeds (calls_of rt)

  selected :
      (cfg cfg' : OperatorConfig) (err : Option String) (sel : Dict String × Bool)
      → after_selector unmarshal rt cfg sel ≡ started cfg' err
      → (cfg ≡ cfg') × (rt.start ≡ err) × (sel.1 ≡ false) × Succeeds (calls_of rt)
  unfolding after_selector
  selected cfg cfg' err (labels, true) h = cc
  selected cfg cfg' err (labels, false) h =
      let (same, is, all) = run_manager-ran cfg cfg' rt.start err (calls_of rt) h in
      (same, is, refl, all)

  selected_runs :
      (cfg : OperatorConfig) (sel : Dict String × Bool)
      → sel.1 ≡ false
      → Succeeds (calls_of rt)
      → after_selector unmarshal rt cfg sel ≡ started cfg rt.start
  unfolding after_selector
  selected_runs cfg (labels, true) e all = cc
  selected_runs cfg (labels, false) e all = run_manager_runs cfg rt.start (calls_of rt) all

  validated :
      (cfg cfg' : OperatorConfig) (err o : Option String)
      → validate cfg ≡ o
      → after_validate unmarshal rt cfg o ≡ started cfg' err
      → (cfg ≡ cfg') × (rt.start ≡ err) × Ready cfg
  unfolding after_validate
  validated cfg cfg' err (some e) v h = cc
  validated cfg cfg' err none v h =
      let (same, is, decodes, all) = selected cfg cfg' err (selector_of unmarshal none cfg) h in
      (same, is, (v, (λ common. selector_of-none unmarshal cfg common decodes), all))

  after_load-ran :
      (r : Loaded) (cfg' : OperatorConfig) (err : Option String)
      → after_load unmarshal rt (keep_loaded none r) ≡ started cfg' err
      → (r ≡ loaded cfg') × (rt.start ≡ err) × Ready cfg'
  unfolding after_load keep_loaded
  after_load-ran (refused e) cfg' err h = cc
  after_load-ran (loaded cfg) cfg' err h =
      let (same, is, ready) = validated cfg cfg' err (validate cfg) refl h in
      (ap loaded same, is, subst Ready same ready)

  after_load_runs :
      (cfg : OperatorConfig)
      → Ready cfg
      → after_load unmarshal rt (keep_loaded none (loaded cfg)) ≡ started cfg rt.start
  unfolding after_load keep_loaded after_validate
  after_load_runs cfg (valid, decodes, all) =
      rw valid (selected_runs cfg (selector_of unmarshal none cfg) (decodes none) all)

  parsed_iff :
      (v : Viper) (s : Source) (cfg : OperatorConfig) (err parse : Option String)
      → (after_parse unmarshal rt parse v s ≡ started cfg err)
        ↔ ((parse ≡ none) × (read v s ≡ loaded cfg) × Ready cfg × (rt.start ≡ err))
  unfolding after_parse load
  parsed_iff v s cfg err (some e) = ((λ h. cc h), (λ h. cc h.0))
  parsed_iff v s cfg err none = (
    (λ h. let (is, ends, ready) = after_load-ran (read v s) cfg err h in (refl, is, ready, ends)),
    (λ (parse, is, ready, ends).
        ap (λ r. after_load unmarshal rt (keep_loaded none r)) is
        ∙ after_load_runs cfg ready
        ∙ ap (λ e. started cfg e) ends),
  )

  -- The manager is started on settings, and `Start` returns what it does, exactly where the flags
  -- parse, the settings are those that were read, `Validate` finds no fault with them, the node
  -- selector decodes for every share and none of the calls before the start fails.
  pub main_iff :
      (v : Viper) (defaults cfg : OperatorConfig) (err : Option String)
      → (main unmarshal rt v defaults ≡ started cfg err) ↔ (
          (rt.parse_flags ≡ none)
          × (read v (flags v (new_source defaults)).1 ≡ loaded cfg)
          × Ready cfg
          × (rt.start ≡ err))
  unfolding main
  main_iff v defaults cfg err =
      parsed_iff v (flags v (new_source defaults)).1 cfg err rt.parse_flags
