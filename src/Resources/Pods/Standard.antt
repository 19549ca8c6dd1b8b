-- ===== src/Resources/Pods/Standard.antt =====
-- internal/resources/pods.go: the pods of a server that is not clustered are well formed, and
-- building one never panics.
use samba_operator.Base.{
  String, ◌==◌, ◌!=◌, ◌≡◌, refl, List, [], ◌∷◌, ◌++◌, Bool, true, false, Option, eq_iff,
}
use samba_operator.Base.Dict.{Dict}
use samba_operator.Base.Panics.{returns, Holds, Holds->>=, Holds-if}
use samba_operator.Planner.Instance.{Planner}
use samba_operator.Planner.Properties.{security_mode, ad_mode}
use samba_operator.Planner.Misc.{user_security_source, dns_register_never}
use samba_operator.Resources.Objects.{PodSpec, EnvVar}
use samba_operator.Resources.Volumes.{VolMount, extend}
use samba_operator.Resources.Volumes.Distinct.{All-++}
use samba_operator.Resources.Pods.Containers.{build_must_join_ctr}
use samba_operator.Resources.Pods.Env.{valued, join_env_paths, default_pod_env}
use samba_operator.Resources.Pods.Builders.{build_ad_pod_spec, build_user_pod_spec, build_pod_spec}
use samba_operator.Resources.Pods.Ascending.{Ascending, get_join_sources-Ascending}
use samba_operator.Resources.Pods.Groups.{Group, share, joins, os_run, config, state, sockets, once}
use samba_operator.Resources.Pods.Mounts.{subset, without_share}
use samba_operator.Resources.Pods.Fitting.{
  keeper, Fits, dns_register-Holds, build_winbindd_ctr-Fitting, build_init_ctr-Fitting,
  build_ensure_share_ctr-Fitting, build_must_join_ctr-Fitting, build_smbd_ctrs-Holds,
}
use samba_operator.Resources.Pods.WellFormed.{
  WellFormed, tail, users_tail, with_users-keeper, build_smbd_ctrs-Holds_of, extend-joins,
  register_names-Holds, finish-Holds,
}

abbrev init_groups : List Group
init_groups = config ∷ state ∷ []

abbrev server_groups : List Group
server_groups = config ∷ state ∷ sockets ∷ []

abbrev smbd_groups : List Group
smbd_groups = config ∷ state ∷ sockets ∷ share ∷ []

abbrev pod_groups : Bool → List Group
pod_groups on = (config ∷ state ∷ sockets ∷ share ∷ joins ∷ []) ++ tail on

pod_groups-once : (on : Bool) → once (pod_groups on) ≡ true
pod_groups-once true = refl
pod_groups-once false = refl

abbrev plain_groups : List Group
plain_groups = share ∷ state ∷ config ∷ os_run ∷ []

abbrev user_groups : Bool → List Group
user_groups given = plain_groups ++ users_tail given

user_groups-facts :
    (given : Bool)
    → (once (user_groups given) ≡ true)
      × (subset (user_groups given) (user_groups given) ≡ true)
      × (once (without_share (user_groups given)) ≡ true)
      × (subset (without_share (user_groups given)) (user_groups given) ≡ true)
user_groups-facts true = (refl, refl, refl, refl)
user_groups-facts false = (refl, refl, refl, refl)

module _ (unmarshal : String → Option (Dict String)) (pl : Planner) (pvc : String) where
  join-Holds :
      (js : List VolMount) (asc : Ascending 0 js) (env : List EnvVar) (on : Bool)
      → Holds
          (Fits pl pvc "" js asc (pod_groups on))
          (build_must_join_ctr pl env (extend (keeper pl pvc "" js asc init_groups) js))
  join-Holds js asc env on = simp (extend-joins pl pvc "" js asc init_groups) (
      build_must_join_ctr-Fitting pl pvc "" js asc env (init_groups ++ joins ∷ []) (pod_groups on)
        refl refl)

  build_ad_pod_spec-Holds :
      security_mode pl ≡ ad_mode → Holds WellFormed (build_ad_pod_spec unmarshal pl pvc)
  unfolding build_ad_pod_spec
  build_ad_pod_spec-Holds ad =
      let (src, made, asc) = get_join_sources-Ascending pl ad in
      let js = src.volumes in
      let (reg, asked, _) = dns_register-Holds pl in
      let on = reg != dns_register_never in
      let pod = pod_groups on in
      let env = default_pod_env pl in
      simp (made, asked)
        (Holds->>= (build_smbd_ctrs-Holds pl pvc "" js asc env smbd_groups pod refl refl refl refl)
          λ smbd f.
            Holds->>= (build_winbindd_ctr-Fitting pl pvc "" js asc env server_groups pod refl refl)
              λ winbindd g.
                Holds->>=
                  (register_names-Holds pl pvc "" js asc on env (smbd_groups ++ joins ∷ [])
                    server_groups _ (extend-joins pl pvc "" js asc smbd_groups) refl refl refl)
                  λ names (volumes, h).
                    Holds->>=
                      (build_init_ctr-Fitting pl pvc "" js asc env init_groups pod refl refl)
                      λ init a.
                        Holds->>=
                          (build_ensure_share_ctr-Fitting pl pvc "" js asc env smbd_groups pod refl
                            refl)
                          λ ensure b.
                            Holds->>=
                              (join-Holds js asc
                                (env ++ valued "SAMBACC_JOIN_FILES" (join_env_paths src.paths) ∷ [])
                                on)
                              λ join c.
                                finish-Holds pl pvc "" js asc unmarshal pod _
                                  (init ∷ ensure ∷ join ∷ []) (smbd ++ winbindd ∷ names.1) volumes
                                  (pod_groups-once on) (a, (b, (c, tt)))
                                  (All-++ _ smbd (winbindd ∷ names.1) f (g, h)))

  build_user_pod_spec-Holds : Holds WellFormed (build_user_pod_spec unmarshal pl pvc)
  unfolding build_user_pod_spec
  build_user_pod_spec-Holds =
      let env = default_pod_env pl in
      let given = (user_security_source pl).configured in
      let pod = user_groups given in
      let facts = user_groups-facts given in
      Holds->>=
        (build_ensure_share_ctr-Fitting pl pvc "" [] tt env (share ∷ state ∷ config ∷ []) pod refl
          refl)
        λ ensure a.
          Holds->>=
            (build_smbd_ctrs-Holds_of pl pvc "" [] tt env pod pod _
              (with_users-keeper pl pvc "" [] tt plain_groups) facts.0 facts.1 facts.2 facts.3)
            λ smbd f.
              finish-Holds pl pvc "" [] tt unmarshal pod _ (ensure ∷ []) smbd
                (with_users-keeper pl pvc "" [] tt plain_groups) facts.0 (a, tt) f

  -- The pod of a server that is not clustered is always built, in both security modes, with volumes
  -- of distinct names, and its containers mount these volumes only.
  pub build_pod_spec-WellFormed :
      (spec : PodSpec) × (build_pod_spec unmarshal pl pvc ≡ returns spec) × WellFormed spec
  unfolding build_pod_spec
  build_pod_spec-WellFormed =
      Holds-if (security_mode pl == ad_mode)
        (λ ad. build_ad_pod_spec-Holds ((eq_iff (security_mode pl) ad_mode).0 ad))
        λ _. build_user_pod_spec-Holds
