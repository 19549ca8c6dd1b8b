-- ===== src/Resources/Pods/WellFormed.antt =====
-- internal/resources/pods.go: the pod specs have what a pod needs. The names of their volumes are
-- distinct, and the containers mount these volumes only.
use samba_operator.Base.{
  String, ◌≡◌, refl, sym, ap, ◌∙◌, arith, List, [], ◌∷◌, ◌++◌, Bool, true, false, Option, inl, inr,
  Bool-cases, All, contains, eq_iff,
}
use mathlib.Core.List.{append-nil, append_assoc}
use samba_operator.Base.Dict.{Dict}
use samba_operator.Base.Panics.{Holds, Holds->>=}
use samba_operator.Planner.Instance.{Planner}
use samba_operator.Planner.Misc.{user_security_source}
use samba_operator.Planner.Paths.{service_watch_state_dir}
use samba_operator.Resources.Objects.{PodSpec, Container, EnvVar}
use samba_operator.Resources.Volumes.{VolMount, VolKeeper, add, extend, get_volumes}
use samba_operator.Resources.Volumes.Sources.{svc_watch_volume_and_mount}
use samba_operator.Resources.Volumes.Distinct.{Differs, Distinct}
use samba_operator.Resources.Pods.Builders.{register_names, with_users, finish}
use samba_operator.Resources.Pods.Containers.{build_dns_reg_ctr, build_smbd_ctrs}
use samba_operator.Resources.Pods.Ascending.{Ascending}
use samba_operator.Resources.Pods.Groups.{
  Group, members, joins, users, watch, once, all_members, all-all_members, all_members-Distinct,
}
use samba_operator.Resources.Pods.Mounts.{volume_names, Mounts, subset, without_share}
use samba_operator.Resources.Pods.Fitting.{
  Fits, build_dns_reg_ctr-Fitting, build_smbd_ctrs-Holds, build_svc_watch_ctr-Fitting, keeper,
}

-- No name is listed twice.
abbrev pub Nodup : List String → Type 0
Nodup [] = Unit
Nodup (n ∷ ns) = (contains ns n ≡ false) × Nodup ns

abbrev pub WellFormed : PodSpec → Type 0
WellFormed spec =
    Nodup (volume_names spec.volumes)
    × All (λ c. All (Mounts spec.volumes) c.volume_mounts) spec.init_containers
    × All (λ c. All (Mounts spec.volumes) c.volume_mounts) spec.containers

contains-Differs :
    (v : VolMount) (vs : List VolMount)
    → All (Differs v) vs
    → contains (volume_names (get_volumes vs)) v.volume.name ≡ false
contains-Differs v [] h = refl
contains-Differs v (w ∷ vs) (d, h) =
    rw (contains-Differs v vs h)
      (ground (arith, eq_iff v.volume.name w.volume.name, eq_iff w.volume.name v.volume.name))

Nodup-Distinct : (vs : List VolMount) → Distinct vs → Nodup (volume_names (get_volumes vs))
Nodup-Distinct [] d = tt
Nodup-Distinct (v ∷ vs) (fresh, d) = (contains-Differs v vs fresh, Nodup-Distinct vs d)

-- The group of the directory that two containers share, where the names are registered.
abbrev pub tail : Bool → List Group
tail true = watch ∷ []
tail false = []

-- The group of the users' configuration, where there is one.
abbrev pub users_tail : Bool → List Group
users_tail true = users ∷ []
users_tail false = []

module _ (pl : Planner) (data_pvc state_pvc : String) (js : List VolMount)
    (asc : Ascending 0 js) where
  abbrev vols : List Group → List VolMount
  vols = all_members pl data_pvc state_pvc js

  abbrev kept : List Group → VolKeeper
  kept = keeper pl data_pvc state_pvc js asc

  abbrev FitsIn : List Group → Container → Type 0
  FitsIn = Fits pl data_pvc state_pvc js asc

  pub all_members-++ : (gs hs : List Group) → vols (gs ++ hs) ≡ vols gs ++ vols hs
  all_members-++ [] hs = refl
  all_members-++ (g ∷ gs) hs =
      rw (all_members-++ gs hs)
        (sym (append_assoc (members pl data_pvc state_pvc js g) (vols gs) (vols hs)))

  pub extend-joins : (gs : List Group) → extend (kept gs) js ≡ kept (gs ++ joins ∷ [])
  extend-joins gs =
      ap (λ vs. record { vols = vs })
        (sym (all_members-++ gs (joins ∷ []) ∙ ap (λ r. vols gs ++ r) (append-nil js)))

  abbrev watch_vol : VolMount
  watch_vol = svc_watch_volume_and_mount service_watch_state_dir

  pub add-watch : (gs : List Group) → add (kept gs) watch_vol ≡ kept (gs ++ watch ∷ [])
  add-watch gs = ap (λ vs. record { vols = vs }) (sym (all_members-++ gs (watch ∷ [])))

  dns_reg-Holds :
      (env : List EnvVar) (base servers : List Group)
      → once (servers ++ watch ∷ []) ≡ true
      → subset (servers ++ watch ∷ []) (base ++ watch ∷ []) ≡ true
      → Holds
          (FitsIn (base ++ watch ∷ []))
          (build_dns_reg_ctr pl env (add (kept servers) watch_vol))
  dns_reg-Holds env base servers o s = simp (add-watch servers) (
      build_dns_reg_ctr-Fitting pl data_pvc state_pvc js asc env (servers ++ watch ∷ [])
        (base ++ watch ∷ []) o s)

  pub register_names-Holds :
      (on : Bool) (env : List EnvVar) (base servers : List Group) (volumes : VolKeeper)
      → volumes ≡ kept base
      → once (servers ++ watch ∷ []) ≡ true
      → subset (servers ++ watch ∷ []) (base ++ watch ∷ []) ≡ true
      → subset (watch ∷ []) (base ++ watch ∷ []) ≡ true
      → Holds
          (λ r. (r.0 ≡ kept (base ++ tail on)) × All (FitsIn (base ++ tail on)) r.1)
          (register_names pl env volumes (kept servers) on)
  unfolding register_names
  register_names-Holds false env base servers volumes same o s w =
      (_, refl, (same ∙ ap kept (sym (append-nil base)), tt))
  register_names-Holds true env base servers volumes same o s w =
      Holds->>=
        (build_svc_watch_ctr-Fitting pl data_pvc state_pvc js asc _ (watch ∷ [])
          (base ++ watch ∷ []) refl w)
        λ c f. Holds->>= (dns_reg-Holds env base servers o s) λ d g. (
          (add volumes watch_vol, c ∷ d ∷ []),
          refl,
          (ap (λ k. add k watch_vol) same ∙ add-watch base, (f, (g, tt))),
        )

  pub finish-Holds :
      (unmarshal : String → Option (Dict String)) (gs : List Group) (volumes : VolKeeper)
      (inits ctrs : List Container)
      → volumes ≡ kept gs
      → once gs ≡ true
      → All (FitsIn gs) inits
      → All (FitsIn gs) ctrs
      → Holds WellFormed (finish unmarshal pl volumes inits ctrs)
  unfolding finish
  finish-Holds unmarshal gs volumes inits ctrs same o f g = rw same (
      rw (all-all_members pl data_pvc state_pvc js asc gs o) (
        _,
        refl,
        (Nodup-Distinct (vols gs) (all_members-Distinct pl data_pvc state_pvc js asc gs o), f, g),
      ))

  pub with_users-keeper :
      (gs : List Group)
      → with_users pl (kept gs) ≡ kept (gs ++ users_tail (user_security_source pl).configured)
  unfolding with_users
  with_users-keeper gs = elim (Bool-cases (user_security_source pl).configured) [
    | inl given ↦ rw given (ap (λ vs. record { vols = vs }) (sym (all_members-++ gs (users ∷ []))))
    | inr absent ↦ rw absent (ap kept (sym (append-nil gs)))
  ]

  pub build_smbd_ctrs-Holds_of :
      (env : List EnvVar) (hs gs : List Group) (volumes : VolKeeper)
      → volumes ≡ kept hs
      → once hs ≡ true
      → subset hs gs ≡ true
      → once (without_share hs) ≡ true
      → subset (without_share hs) gs ≡ true
      → Holds (All (FitsIn gs)) (build_smbd_ctrs pl env volumes)
  build_smbd_ctrs-Holds_of env hs gs volumes same o s o' s' =
      rw same (build_smbd_ctrs-Holds pl data_pvc state_pvc js asc env hs gs o s o' s')
