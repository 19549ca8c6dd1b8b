-- ===== src/Resources/Pods/Fitting.antt =====
-- internal/resources/pods.go: the containers mount volumes of their pod only, whichever kinds of
-- volumes they are given.
use samba_operator.Base.{
  String, ◌==◌, ◌≡◌, refl, ap, List, true, some, inl, inr, Bool-cases, Option-cases, All, eq_iff,
  ne_of_eq-false,
}
use samba_operator.Base.Panics.{Run, Holds, Holds->>=}
use samba_operator.Api.SmbSecurityConfig.{SmbSecurityConfig}
use samba_operator.Planner.Instance.{Planner}
use samba_operator.Planner.Properties.{security_mode, ad_mode}
use samba_operator.Planner.Misc.{dns_register}
use samba_operator.Planner.Args.{dns_register_args}
use samba_operator.Resources.Objects.{Container, EnvVar}
use samba_operator.Resources.Volumes.{
  VolMount, VolKeeper, all, exclude, tag_data, get_volumes, get_mounts,
}
use samba_operator.Resources.Metrics.{with_metrics_exporter}
use samba_operator.Resources.Pods.Containers.{
  mounting, build_smbd_ctr, build_smbd_metrics_ctr, build_winbindd_ctr, build_ctdb_daemon_ctr,
  build_ctdb_manage_nodes_ctr, build_dns_reg_ctr, build_svc_watch_ctr, build_init_ctr,
  build_ensure_share_ctr, build_must_join_ctr, build_ctdb_migrate_ctr, build_ctdb_set_node_ctr,
  build_ctdb_must_have_node_ctr, build_update_config_watch_ctr, metrics_ctrs, build_smbd_ctrs,
}
use samba_operator.Resources.Pods.Ascending.{Ascending}
use samba_operator.Resources.Pods.Groups.{Group, once, all_members, all-all_members}
use samba_operator.Resources.Pods.Mounts.{
  Mounts, subset, subset-Mounts, without_share, exclude_vols-all_members,
}

abbrev pub Always {ℓ} : {A : Type ℓ} → A → Type 0
Always a = Unit

pub security_config-eq-some :
    (pl : Planner)
    → security_mode pl ≡ ad_mode
    → (c : SmbSecurityConfig) × (pl.security_config ≡ some c)
unfolding security_mode
security_config-eq-some pl ad = elim (Option-cases pl.security_config) [
  | inl nil ↦ absurd (ne_of_eq-false "user" "active-directory" refl (rw nil at ad))
  | inr given ↦ given
]

pub dns_register-Holds : (pl : Planner) → Holds Always (dns_register pl)
unfolding dns_register
dns_register-Holds pl = elim (Bool-cases (security_mode pl == ad_mode)) [
  | inl ad ↦
      let (c, given) = security_config-eq-some pl ((eq_iff (security_mode pl) ad_mode).0 ad) in
      rw ad (simp given (_, refl, tt))
  | inr other ↦ rw other (_, refl, tt)
]

dns_register_args-Holds : (pl : Planner) → Holds Always (dns_register_args pl)
unfolding dns_register_args
dns_register_args-Holds pl = Holds->>= (dns_register-Holds pl) λ reg _. (_, refl, tt)

module _ (pl : Planner) (data_pvc state_pvc : String) (js : List VolMount)
    (asc : Ascending 0 js) where
  abbrev pub keeper : List Group → VolKeeper
  keeper gs = record { vols = all_members pl data_pvc state_pvc js gs }

  -- The container mounts volumes of the pod that has these groups.
  abbrev pub Fits : List Group → Container → Type 0
  Fits gs c = All (Mounts (get_volumes (all_members pl data_pvc state_pvc js gs))) c.volume_mounts

  abbrev pub Fitting : (VolKeeper → Run Container) → Type 0
  Fitting build =
      (hs gs : List Group)
      → once hs ≡ true
      → subset hs gs ≡ true
      → Holds (Fits gs) (build (keeper hs))

  all-Mounts :
      (hs gs : List Group)
      → once hs ≡ true
      → subset hs gs ≡ true
      → Holds
          (λ vs.
            All (Mounts (get_volumes (all_members pl data_pvc state_pvc js gs))) (get_mounts vs))
          (all (keeper hs))
  all-Mounts hs gs o s =
      rw (all-all_members pl data_pvc state_pvc js asc hs o)
        (_, refl, subset-Mounts pl data_pvc state_pvc js asc hs gs s)

  build_smbd_ctr-Fitting : (env : List EnvVar) → Fitting (build_smbd_ctr pl env)
  unfolding build_smbd_ctr mounting
  build_smbd_ctr-Fitting env hs gs o s = Holds->>= (all-Mounts hs gs o s) λ vs f. (_, refl, f)

  pub build_smbd_metrics_ctr-Fitting : (env : List EnvVar) → Fitting (build_smbd_metrics_ctr pl env)
  unfolding build_smbd_metrics_ctr mounting
  build_smbd_metrics_ctr-Fitting env hs gs o s =
      Holds->>= (all-Mounts hs gs o s) λ vs f. (_, refl, f)

  pub build_winbindd_ctr-Fitting : (env : List EnvVar) → Fitting (build_winbindd_ctr pl env)
  unfolding build_winbindd_ctr mounting
  build_winbindd_ctr-Fitting env hs gs o s = Holds->>= (all-Mounts hs gs o s) λ vs f. (_, refl, f)

  pub build_ctdb_daemon_ctr-Fitting : (env : List EnvVar) → Fitting (build_ctdb_daemon_ctr pl env)
  unfolding build_ctdb_daemon_ctr mounting
  build_ctdb_daemon_ctr-Fitting env hs gs o s =
      Holds->>= (all-Mounts hs gs o s) λ vs f. (_, refl, f)

  pub build_ctdb_manage_nodes_ctr-Fitting :
      (env : List EnvVar) → Fitting (build_ctdb_manage_nodes_ctr pl env)
  unfolding build_ctdb_manage_nodes_ctr mounting
  build_ctdb_manage_nodes_ctr-Fitting env hs gs o s =
      Holds->>= (all-Mounts hs gs o s) λ vs f. (_, refl, f)

  pub build_svc_watch_ctr-Fitting : (env : List EnvVar) → Fitting (build_svc_watch_ctr pl env)
  unfolding build_svc_watch_ctr mounting
  build_svc_watch_ctr-Fitting env hs gs o s = Holds->>= (all-Mounts hs gs o s) λ vs f. (_, refl, f)

  pub build_init_ctr-Fitting : (env : List EnvVar) → Fitting (build_init_ctr pl env)
  unfolding build_init_ctr mounting
  build_init_ctr-Fitting env hs gs o s = Holds->>= (all-Mounts hs gs o s) λ vs f. (_, refl, f)

  pub build_ensure_share_ctr-Fitting : (env : List EnvVar) → Fitting (build_ensure_share_ctr pl env)
  unfolding build_ensure_share_ctr mounting
  build_ensure_share_ctr-Fitting env hs gs o s =
      Holds->>= (all-Mounts hs gs o s) λ vs f. (_, refl, f)

  pub build_must_join_ctr-Fitting : (env : List EnvVar) → Fitting (build_must_join_ctr pl env)
  unfolding build_must_join_ctr mounting
  build_must_join_ctr-Fitting env hs gs o s = Holds->>= (all-Mounts hs gs o s) λ vs f. (_, refl, f)

  pub build_ctdb_migrate_ctr-Fitting : (env : List EnvVar) → Fitting (build_ctdb_migrate_ctr pl env)
  unfolding build_ctdb_migrate_ctr mounting
  build_ctdb_migrate_ctr-Fitting env hs gs o s =
      Holds->>= (all-Mounts hs gs o s) λ vs f. (_, refl, f)

  pub build_ctdb_set_node_ctr-Fitting :
      (env : List EnvVar) → Fitting (build_ctdb_set_node_ctr pl env)
  unfolding build_ctdb_set_node_ctr mounting
  build_ctdb_set_node_ctr-Fitting env hs gs o s =
      Holds->>= (all-Mounts hs gs o s) λ vs f. (_, refl, f)

  pub build_ctdb_must_have_node_ctr-Fitting :
      (env : List EnvVar) → Fitting (build_ctdb_must_have_node_ctr pl env)
  unfolding build_ctdb_must_have_node_ctr mounting
  build_ctdb_must_have_node_ctr-Fitting env hs gs o s =
      Holds->>= (all-Mounts hs gs o s) λ vs f. (_, refl, f)

  pub build_update_config_watch_ctr-Fitting :
      (env : List EnvVar) → Fitting (build_update_config_watch_ctr pl env)
  unfolding build_update_config_watch_ctr mounting
  build_update_config_watch_ctr-Fitting env hs gs o s =
      Holds->>= (all-Mounts hs gs o s) λ vs f. (_, refl, f)

  pub build_dns_reg_ctr-Fitting : (env : List EnvVar) → Fitting (build_dns_reg_ctr pl env)
  unfolding build_dns_reg_ctr
  build_dns_reg_ctr-Fitting env hs gs o s = rw (all-all_members pl data_pvc state_pvc js asc hs o) (
      Holds->>= (dns_register_args-Holds pl)
        λ args _. (_, refl, subset-Mounts pl data_pvc state_pvc js asc hs gs s))

  exclude-keeper : (hs : List Group) → exclude (keeper hs) tag_data ≡ keeper (without_share hs)
  unfolding exclude
  exclude-keeper hs =
      ap (λ vs. record { vols = vs }) (exclude_vols-all_members pl data_pvc state_pvc js asc hs)

  metrics_ctrs-Holds :
      (hs gs : List Group)
      → once hs ≡ true
      → subset hs gs ≡ true
      → Holds (All (Fits gs)) (metrics_ctrs pl (keeper hs))
  unfolding metrics_ctrs
  metrics_ctrs-Holds hs gs o s =
      Holds->>= (build_smbd_metrics_ctr-Fitting _ hs gs o s) λ c f. (_, refl, (f, tt))

  exclude-Holds :
      (hs gs : List Group)
      → once (without_share hs) ≡ true
      → subset (without_share hs) gs ≡ true
      → Holds (All (Fits gs)) (metrics_ctrs pl (exclude (keeper hs) tag_data))
  exclude-Holds hs gs o s = rw (exclude-keeper hs) (metrics_ctrs-Holds (without_share hs) gs o s)

  pub build_smbd_ctrs-Holds :
      (env : List EnvVar) (hs gs : List Group)
      → once hs ≡ true
      → subset hs gs ≡ true
      → once (without_share hs) ≡ true
      → subset (without_share hs) gs ≡ true
      → Holds (All (Fits gs)) (build_smbd_ctrs pl env (keeper hs))
  unfolding build_smbd_ctrs
  build_smbd_ctrs-Holds env hs gs o s o' s' =
      Holds->>= (build_smbd_ctr-Fitting env hs gs o s) λ smbd f.
        Holds->>= (build_update_config_watch_ctr-Fitting env hs gs o s) λ watch g.
          elim (Bool-cases (with_metrics_exporter pl.global_config)) [
            | inl on ↦ rw on (Holds->>= (exclude-Holds hs gs o' s') λ ms h. (_, refl, (f, (g, h))))
            | inr off ↦ rw off (_, refl, (f, (g, tt)))
          ]
