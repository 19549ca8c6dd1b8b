-- ===== src/Resources/Pods/Cluster.antt =====
-- internal/resources/pods.go: the pods of a clustered server are well formed, and building one
-- never panics.
use samba_operator.Base.{
  String, ◌==◌, ◌!=◌, ◌≡◌, refl, List, [], ◌∷◌, ◌++◌, Bool, true, false, Option, eq_iff,
}
use samba_operator.Base.Dict.{Dict}
use samba_operator.Base.Panics.{returns, Holds, Holds->>=, Holds-if}
use samba_operator.Planner.Instance.{Planner}
use samba_operator.Planner.Properties.{security_mode, ad_mode}
use samba_operator.Planner.Misc.{user_security_source, dns_register_never}
use samba_operator.Resources.Objects.{PodSpec, EnvVar}
use samba_operator.Resources.Volumes.{VolMount, extend}
use samba_operator.Resources.Volumes.Distinct.{All-++}
use samba_operator.Resources.Pods.Containers.{build_must_join_ctr}
use samba_operator.Resources.Pods.Env.{valued, join_env_paths, default_pod_env, ctdb_hostname_env}
use samba_operator.Resources.Pods.Clustered.{
  build_clustered_user_pod_spec, build_clustered_ad_pod_spec, build_clustered_pod_spec,
}
use samba_operator.Resources.Pods.Ascending.{Ascending, get_join_sources-Ascending}
use samba_operator.Resources.Pods.Groups.{
  Group, share, shared_state, joins, config, state, sockets, ctdb_config, ctdb_persistent,
  ctdb_volatile, ctdb_sockets, once,
}
use samba_operator.Resources.Pods.Mounts.{subset, without_share}
use samba_operator.Resources.Pods.Fitting.{
  keeper, Fits, dns_register-Holds, build_winbindd_ctr-Fitting, build_must_join_ctr-Fitting,
}
use samba_operator.Resources.Pods.WellFormed.{
  WellFormed, tail, users_tail, with_users-keeper, build_smbd_ctrs-Holds_of, extend-joins,
  register_names-Holds, finish-Holds,
}
use samba_operator.Resources.Pods.ClusterFitting.{
  SuitsAll, first_inits-Holds, ctdb_inits-Holds, ctdb_ctrs-Holds,
}

abbrev cluster_groups : List Group
cluster_groups =
    share ∷ config ∷ state ∷ ctdb_config ∷ ctdb_persistent ∷ ctdb_volatile ∷ ctdb_sockets
    ∷ shared_state ∷ []

abbrev user_groups : Bool → List Group
user_groups given = cluster_groups ++ users_tail given

abbrev cfg_groups : Bool → List Group
cfg_groups given = config ∷ users_tail given

user_groups-facts :
    (given : Bool)
    → (once (user_groups given) ≡ true)
      × (subset (user_groups given) (user_groups given) ≡ true)
      × (once (without_share (user_groups given)) ≡ true)
      × (subset (without_share (user_groups given)) (user_groups given) ≡ true)
user_groups-facts true = (refl, refl, refl, refl)
user_groups-facts false = (refl, refl, refl, refl)

user_groups-SuitsAll : (given : Bool) → SuitsAll (cfg_groups given) (user_groups given)
user_groups-SuitsAll true =
    ((refl, refl), (refl, refl), (refl, refl), (refl, refl), (refl, refl), (refl, refl))
user_groups-SuitsAll false =
    ((refl, refl), (refl, refl), (refl, refl), (refl, refl), (refl, refl), (refl, refl))

abbrev shared_groups : List Group
shared_groups = cluster_groups ++ sockets ∷ []

abbrev ad_groups : Bool → List Group
ad_groups on = (shared_groups ++ joins ∷ []) ++ tail on

ad_groups-once : (on : Bool) → once (ad_groups on) ≡ true
ad_groups-once true = refl
ad_groups-once false = refl

abbrev state_groups : List Group
state_groups = config ∷ state ∷ shared_state ∷ []

abbrev winbind_groups : List Group
winbind_groups =
    config ∷ state ∷ sockets ∷ ctdb_config ∷ ctdb_persistent ∷ ctdb_volatile ∷ ctdb_sockets
    ∷ shared_state ∷ []

module _ (unmarshal : String → Option (Dict String)) (pl : Planner)
    (data_pvc state_pvc : String) where
  build_clustered_user_pod_spec-Holds :
      Holds WellFormed (build_clustered_user_pod_spec unmarshal pl data_pvc state_pvc)
  unfolding build_clustered_user_pod_spec
  build_clustered_user_pod_spec-Holds =
      let env = default_pod_env pl in
      let ctdb_env = env ++ ctdb_hostname_env pl in
      let given = (user_security_source pl).configured in
      let pod = user_groups given in
      let facts = user_groups-facts given in
      let vols = with_users-keeper pl data_pvc state_pvc [] tt cluster_groups in
      let cfg = with_users-keeper pl data_pvc state_pvc [] tt (config ∷ []) in
      let suits = user_groups-SuitsAll given in
      Holds->>=
        (first_inits-Holds pl data_pvc state_pvc [] tt (cfg_groups given) pod _ cfg suits env)
        λ inits f.
          Holds->>=
            (ctdb_inits-Holds pl data_pvc state_pvc [] tt (cfg_groups given) pod _ cfg suits
              ctdb_env)
            λ nodes g.
              Holds->>=
                (ctdb_ctrs-Holds pl data_pvc state_pvc [] tt (cfg_groups given) pod _ cfg suits
                  ctdb_env)
                λ ctdb h.
                  Holds->>=
                    (build_smbd_ctrs-Holds_of pl data_pvc state_pvc [] tt env pod pod _ vols facts.0
                      facts.1 facts.2 facts.3)
                    λ smbd k.
                      finish-Holds pl data_pvc state_pvc [] tt unmarshal pod _ (inits ++ nodes)
                        (ctdb ++ smbd) vols facts.0 (All-++ _ inits nodes f g)
                        (All-++ _ ctdb smbd h k)

  join-Holds :
      (js : List VolMount) (asc : Ascending 0 js) (env : List EnvVar) (on : Bool)
      → Holds (Fits pl data_pvc state_pvc js asc (ad_groups on)) (
          build_must_join_ctr pl env (extend (keeper pl data_pvc state_pvc js asc state_groups) js))
  join-Holds js asc env on = simp (extend-joins pl data_pvc state_pvc js asc state_groups) (
      build_must_join_ctr-Fitting pl data_pvc state_pvc js asc env (state_groups ++ joins ∷ [])
        (ad_groups on) refl refl)

  build_clustered_ad_pod_spec-Holds :
      security_mode pl ≡ ad_mode
      → Holds WellFormed (build_clustered_ad_pod_spec unmarshal pl data_pvc state_pvc)
  unfolding build_clustered_ad_pod_spec
  build_clustered_ad_pod_spec-Holds ad =
      let (src, made, asc) = get_join_sources-Ascending pl ad in
      let js = src.volumes in
      let (reg, asked, _) = dns_register-Holds pl in
      let on = reg != dns_register_never in
      let pod = ad_groups on in
      let env = default_pod_env pl in
      let ctdb_env = env ++ ctdb_hostname_env pl in
      let vols = extend-joins pl data_pvc state_pvc js asc shared_groups in
      let suits : SuitsAll (config ∷ []) pod =
        ((refl, refl), (refl, refl), (refl, refl), (refl, refl), (refl, refl), (refl, refl)) in
      simp (made, asked)
        (Holds->>=
          (first_inits-Holds pl data_pvc state_pvc js asc (config ∷ []) pod _ refl suits env)
          λ inits a.
            Holds->>=
              (join-Holds js asc (valued "SAMBACC_JOIN_FILES" (join_env_paths src.paths) ∷ []) on)
              λ join b.
                Holds->>=
                  (ctdb_inits-Holds pl data_pvc state_pvc js asc (config ∷ []) pod _ refl suits
                    ctdb_env)
                  λ nodes c.
                    Holds->>=
                      (ctdb_ctrs-Holds pl data_pvc state_pvc js asc (config ∷ []) pod _ refl suits
                        ctdb_env)
                      λ ctdb d.
                        Holds->>=
                          (build_winbindd_ctr-Fitting pl data_pvc state_pvc js asc env
                            winbind_groups pod refl refl)
                          λ winbindd e.
                            Holds->>=
                              (build_smbd_ctrs-Holds_of pl data_pvc state_pvc js asc env
                                (shared_groups ++ joins ∷ []) pod _ vols refl refl refl refl)
                              λ smbd f.
                                Holds->>=
                                  (register_names-Holds pl data_pvc state_pvc js asc on env
                                    (shared_groups ++ joins ∷ []) winbind_groups _ vols refl refl
                                    refl)
                                  λ names (volumes, g).
                                    finish-Holds pl data_pvc state_pvc js asc unmarshal pod _
                                      (inits ++ join ∷ nodes) (ctdb ++ winbindd ∷ smbd ++ names.1)
                                      volumes (ad_groups-once on)
                                      (All-++ _ inits (join ∷ nodes) a (b, c))
                                      (All-++ _ (ctdb ++ winbindd ∷ smbd) names.1
                                        (All-++ _ ctdb (winbindd ∷ smbd) d (e, f)) g))

  -- The pod of a clustered server is always built, in both security modes, with volumes of distinct
  -- names, and its containers mount these volumes only.
  pub build_clustered_pod_spec-WellFormed :
      (spec : PodSpec) × (build_clustered_pod_spec unmarshal pl data_pvc state_pvc ≡ returns spec)
      × WellFormed spec
  unfolding build_clustered_pod_spec
  build_clustered_pod_spec-WellFormed =
      Holds-if (security_mode pl == ad_mode)
        (λ ad. build_clustered_ad_pod_spec-Holds ((eq_iff (security_mode pl) ad_mode).0 ad))
        λ _. build_clustered_user_pod_spec-Holds
