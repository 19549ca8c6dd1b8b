-- ===== src/Resources/Pods/ClusterFitting.antt =====
-- internal/resources/pods.go: the containers that both builders of clustered pods have, over any
-- volumes of the pod's configuration.
use samba_operator.Base.{String, ◌≡◌, refl, sym, ap, ◌∙◌, List, [], ◌∷◌, ◌++◌, true, All, subst}
use samba_operator.Base.Panics.{Run, Holds, Holds->>=}
use samba_operator.Planner.Instance.{Planner}
use samba_operator.Resources.Objects.{Container, EnvVar}
use samba_operator.Resources.Volumes.{VolMount, VolKeeper, extend}
use samba_operator.Resources.Pods.Containers.{
  build_init_ctr, build_ensure_share_ctr, build_ctdb_migrate_ctr, build_ctdb_set_node_ctr,
  build_ctdb_must_have_node_ctr, build_ctdb_daemon_ctr, build_ctdb_manage_nodes_ctr,
}
use samba_operator.Resources.Pods.Ascending.{Ascending}
use samba_operator.Resources.Pods.Groups.{
  Group, share, shared_state, state, ctdb_config, ctdb_persistent, ctdb_volatile, ctdb_sockets,
  once, all_members,
}
use samba_operator.Resources.Pods.Mounts.{subset}
use samba_operator.Resources.Pods.Fitting.{
  keeper, Fits, Fitting, build_init_ctr-Fitting, build_ensure_share_ctr-Fitting,
  build_ctdb_migrate_ctr-Fitting, build_ctdb_set_node_ctr-Fitting,
  build_ctdb_must_have_node_ctr-Fitting, build_ctdb_daemon_ctr-Fitting,
  build_ctdb_manage_nodes_ctr-Fitting,
}
use samba_operator.Resources.Pods.WellFormed.{all_members-++}
use samba_operator.Resources.Pods.Clustered.{first_inits, ctdb_inits, ctdb_ctrs}

abbrev init_groups : List Group
init_groups = state ∷ shared_state ∷ []

abbrev ensure_groups : List Group
ensure_groups = state ∷ share ∷ []

abbrev migrate_groups : List Group
migrate_groups = state ∷ shared_state ∷ ctdb_config ∷ ctdb_persistent ∷ []

abbrev node_groups : List Group
node_groups = state ∷ shared_state ∷ ctdb_config ∷ []

abbrev daemon_groups : List Group
daemon_groups = ctdb_config ∷ ctdb_persistent ∷ ctdb_volatile ∷ ctdb_sockets ∷ shared_state ∷ []

abbrev manage_groups : List Group
manage_groups = ctdb_config ∷ ctdb_sockets ∷ shared_state ∷ []

-- The groups go with those of the configuration, and are groups of the pod.
abbrev pub Suits : List Group → List Group → List Group → Type 0
Suits cfg gs hs = (once (cfg ++ hs) ≡ true) × (subset (cfg ++ hs) gs ≡ true)

abbrev pub SuitsAll : List Group → List Group → Type 0
SuitsAll cfg gs =
    Suits cfg gs init_groups
    × Suits cfg gs ensure_groups
    × Suits cfg gs migrate_groups
    × Suits cfg gs node_groups
    × Suits cfg gs daemon_groups
    × Suits cfg gs manage_groups

module _ (pl : Planner) (data_pvc state_pvc : String) (js : List VolMount) (asc : Ascending 0 js)
    (cfg gs : List Group) (cfg_vols : VolKeeper)
    (same : cfg_vols ≡ keeper pl data_pvc state_pvc js asc cfg) (suits : SuitsAll cfg gs) where
  abbrev FitsPod : Container → Type 0
  FitsPod = Fits pl data_pvc state_pvc js asc gs

  with_cfg :
      (build : VolKeeper → Run Container) (hs : List Group)
      → Fitting pl data_pvc state_pvc js asc build
      → Suits cfg gs hs
      → Holds FitsPod (build (extend cfg_vols (all_members pl data_pvc state_pvc js hs)))
  with_cfg build hs fits (o, s) =
      let e : extend cfg_vols (all_members pl data_pvc state_pvc js hs)
          ≡ keeper pl data_pvc state_pvc js asc (cfg ++ hs) =
        ap (λ k. extend k (all_members pl data_pvc state_pvc js hs)) same
        ∙ ap (λ vs. record { vols = vs })
            (sym (all_members-++ pl data_pvc state_pvc js asc cfg hs)) in
      subst (λ k. Holds FitsPod (build k)) (sym e) (fits (cfg ++ hs) gs o s)

  pub first_inits-Holds :
      (env : List EnvVar) → Holds (All FitsPod) (first_inits pl env data_pvc state_pvc cfg_vols)
  unfolding first_inits
  first_inits-Holds env =
      let (i, e, _, _, _, _) = suits in
      Holds->>=
        (with_cfg (build_init_ctr pl env) init_groups
          (build_init_ctr-Fitting pl data_pvc state_pvc js asc env) i)
        λ init f.
          Holds->>=
            (with_cfg (build_ensure_share_ctr pl env) ensure_groups
              (build_ensure_share_ctr-Fitting pl data_pvc state_pvc js asc env) e)
            λ ensure g. (init ∷ ensure ∷ [], refl, (f, (g, tt)))

  pub ctdb_inits-Holds :
      (env : List EnvVar) → Holds (All FitsPod) (ctdb_inits pl env state_pvc cfg_vols)
  unfolding ctdb_inits
  ctdb_inits-Holds env =
      let (_, _, m, n, _, _) = suits in
      Holds->>=
        (with_cfg (build_ctdb_migrate_ctr pl env) migrate_groups
          (build_ctdb_migrate_ctr-Fitting pl data_pvc state_pvc js asc env) m)
        λ migrate f.
          Holds->>=
            (with_cfg (build_ctdb_set_node_ctr pl env) node_groups
              (build_ctdb_set_node_ctr-Fitting pl data_pvc state_pvc js asc env) n)
            λ set_node g.
              Holds->>=
                (with_cfg (build_ctdb_must_have_node_ctr pl env) node_groups
                  (build_ctdb_must_have_node_ctr-Fitting pl data_pvc state_pvc js asc env) n)
                λ have_node h. (migrate ∷ set_node ∷ have_node ∷ [], refl, (f, (g, (h, tt))))

  pub ctdb_ctrs-Holds :
      (env : List EnvVar) → Holds (All FitsPod) (ctdb_ctrs pl env state_pvc cfg_vols)
  unfolding ctdb_ctrs
  ctdb_ctrs-Holds env =
      let (_, _, _, _, d, m) = suits in
      Holds->>=
        (with_cfg (build_ctdb_daemon_ctr pl env) daemon_groups
          (build_ctdb_daemon_ctr-Fitting pl data_pvc state_pvc js asc env) d)
        λ ctdbd f.
          Holds->>=
            (with_cfg (build_ctdb_manage_nodes_ctr pl env) manage_groups
              (build_ctdb_manage_nodes_ctr-Fitting pl data_pvc state_pvc js asc env) m)
            λ manage g. (ctdbd ∷ manage ∷ [], refl, (f, (g, tt)))
