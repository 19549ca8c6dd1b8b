-- ===== src/Resources/Pods/Mounts.antt =====
-- internal/resources/pods.go: what a container mounts is a volume of its pod, and what the tag of
-- the share's data excludes.
use samba_operator.Base.{
  String, ◌≡◌, refl, sym, ap, ◌∙◌, ℕ, arith, List, [], ◌∷◌, ◌++◌, Bool, true, ◌&&◌, if◌then◌else◌,
  inl, inr, Bool-cases, All, contains, eqb, eq_refl,
}
use samba_operator.Planner.Instance.{Planner}
use samba_operator.Resources.Objects.{Volume, VolumeMount}
use samba_operator.Resources.Volumes.{VolMount, exclude_vols, tag_data, get_volumes, get_mounts}
use samba_operator.Resources.Volumes.Sources.{
  share_volume_and_mount, ctdb_shared_state_volume_and_mount, os_run_volume_and_mount,
  config_volume_and_mount, user_config_volume_and_mount, samba_state_volume_and_mount,
  wb_sockets_volume_and_mount, svc_watch_volume_and_mount, ctdb_config_volume_and_mount,
  ctdb_persistent_volume_and_mount, ctdb_volatile_volume_and_mount, ctdb_sockets_volume_and_mount,
}
use samba_operator.Resources.Volumes.Distinct.{Paired, All-map}
use samba_operator.Resources.Pods.Ascending.{IsJoin, Ascending, Ascending-All}
use samba_operator.Resources.Pods.Groups.{
  Group, share, shared_state, joins, os_run, config, users, state, sockets, watch, ctdb_config,
  ctdb_persistent, ctdb_volatile, ctdb_sockets, number, has, members, all_members, members-Paired,
}

abbrev pub volume_names : List Volume → List String
volume_names [] = []
volume_names (v ∷ vs) = v.name ∷ volume_names vs

-- The mount is of one of the volumes.
abbrev pub Mounts : List Volume → VolumeMount → Type 0
Mounts vs m = contains (volume_names vs) m.name ≡ true

-- All of one list are in the other.
abbrev pub subset : List Group → List Group → Bool
subset [] gs = true
subset (h ∷ hs) gs = has gs (number h) && subset hs gs

abbrev group : ℕ → Group
group n =
    if eqb n 0
    then share
    else if eqb n 1
    then shared_state
    else if eqb n 2
    then joins
    else if eqb n 3
    then os_run
    else if eqb n 4
    then config
    else if eqb n 5
    then users
    else if eqb n 6
    then state
    else if eqb n 7
    then sockets
    else if eqb n 8
    then watch
    else if eqb n 9
    then ctdb_config
    else if eqb n 10
    then ctdb_persistent
    else if eqb n 11
    then ctdb_volatile
    else ctdb_sockets

group-number : (g : Group) → group (number g) ≡ g
group-number share = refl
group-number shared_state = refl
group-number joins = refl
group-number os_run = refl
group-number config = refl
group-number users = refl
group-number state = refl
group-number sockets = refl
group-number watch = refl
group-number ctdb_config = refl
group-number ctdb_persistent = refl
group-number ctdb_volatile = refl
group-number ctdb_sockets = refl

abbrev Held : List VolMount → VolMount → Type 0
Held vs v = Mounts (get_volumes vs) v.mount

Held-∷ : (w : VolMount) (vs : List VolMount) (v : VolMount) → Held vs v → Held (w ∷ vs) v
Held-∷ w vs v h = rw h (ground arith)

Held-++_right : (ws vs : List VolMount) (v : VolMount) → Held vs v → Held (ws ++ vs) v
Held-++_right [] vs v h = h
Held-++_right (w ∷ ws) vs v h = Held-∷ w (ws ++ vs) v (Held-++_right ws vs v h)

Held-++_left : (vs ws : List VolMount) → All Paired vs → All (Held (vs ++ ws)) vs
Held-++_left [] ws p = tt
Held-++_left (v ∷ vs) ws (e, p) =
    (rw e (rw (eq_refl v.mount.name) refl), All-map (Held-∷ v (vs ++ ws)) vs (Held-++_left vs ws p))

All-get_mounts :
    (vs ws : List VolMount) → All (Held ws) vs → All (Mounts (get_volumes ws)) (get_mounts vs)
All-get_mounts [] ws h = tt
All-get_mounts (v ∷ vs) ws (m, h) = (m, All-get_mounts vs ws h)

All-Mounts_++ :
    (vs ws : List VolMount) (us : List Volume)
    → All (Mounts us) (get_mounts vs)
    → All (Mounts us) (get_mounts ws)
    → All (Mounts us) (get_mounts (vs ++ ws))
All-Mounts_++ [] ws us h k = k
All-Mounts_++ (v ∷ vs) ws us (m, h) k = (m, All-Mounts_++ vs ws us h k)

abbrev pub without_share : List Group → List Group
without_share [] = []
without_share (share ∷ gs) = without_share gs
without_share (shared_state ∷ gs) = shared_state ∷ without_share gs
without_share (joins ∷ gs) = joins ∷ without_share gs
without_share (os_run ∷ gs) = os_run ∷ without_share gs
without_share (config ∷ gs) = config ∷ without_share gs
without_share (users ∷ gs) = users ∷ without_share gs
without_share (state ∷ gs) = state ∷ without_share gs
without_share (sockets ∷ gs) = sockets ∷ without_share gs
without_share (watch ∷ gs) = watch ∷ without_share gs
without_share (ctdb_config ∷ gs) = ctdb_config ∷ without_share gs
without_share (ctdb_persistent ∷ gs) = ctdb_persistent ∷ without_share gs
without_share (ctdb_volatile ∷ gs) = ctdb_volatile ∷ without_share gs
without_share (ctdb_sockets ∷ gs) = ctdb_sockets ∷ without_share gs

exclude_vols-joins :
    (js vs : List VolMount)
    → All IsJoin js
    → exclude_vols tag_data (js ++ vs) ≡ js ++ exclude_vols tag_data vs
unfolding exclude_vols
exclude_vols-joins [] vs h = refl
exclude_vols-joins (j ∷ js) vs ((_, _, tagged), h) =
    simp tagged (ap (λ r. j ∷ r) (exclude_vols-joins js vs h))

module _ (pl : Planner) (data_pvc state_pvc : String) (js : List VolMount)
    (asc : Ascending 0 js) where
  abbrev vols : List Group → List VolMount
  vols = all_members pl data_pvc state_pvc js

  members-Held :
      (g h : Group) (gs : List Group)
      → eqb (number h) (number g) ≡ true
      → All (Held (vols (h ∷ gs))) (members pl data_pvc state_pvc js g)
  members-Held g h gs e =
      let equal : number h ≡ number g = ground arith in
      let same : h ≡ g = sym (group-number h) ∙ (ap group equal ∙ group-number g) in
      rw same (
        Held-++_left (members pl data_pvc state_pvc js g) (vols gs)
          (members-Paired pl data_pvc state_pvc js asc g))

  has-Held :
      (g : Group) (gs : List Group)
      → has gs (number g) ≡ true
      → All (Held (vols gs)) (members pl data_pvc state_pvc js g)
  has-Held g [] h = cc
  has-Held g (k ∷ gs) h = elim (Bool-cases (eqb (number k) (number g))) [
    | inl here ↦ members-Held g k gs here
    | inr later ↦
        All-map (Held-++_right (members pl data_pvc state_pvc js k) (vols gs))
          (members pl data_pvc state_pvc js g) (has-Held g gs (ground arith))
  ]

  -- Whoever mounts some of the groups that a pod holds mounts its volumes only.
  pub subset-Mounts :
      (hs gs : List Group)
      → subset hs gs ≡ true
      → All (Mounts (get_volumes (vols gs))) (get_mounts (vols hs))
  subset-Mounts [] gs h = tt
  subset-Mounts (g ∷ hs) gs h =
      All-Mounts_++ (members pl data_pvc state_pvc js g) (vols hs) (get_volumes (vols gs))
        (All-get_mounts (members pl data_pvc state_pvc js g) (vols gs)
          (has-Held g gs (ground arith)))
        (subset-Mounts hs gs (ground arith))

  -- The tag of the data takes the share's volume away and no other.
  pub exclude_vols-all_members :
      (gs : List Group) → exclude_vols tag_data (vols gs) ≡ vols (without_share gs)
  unfolding exclude_vols share_volume_and_mount ctdb_shared_state_volume_and_mount
      os_run_volume_and_mount config_volume_and_mount user_config_volume_and_mount
      samba_state_volume_and_mount wb_sockets_volume_and_mount svc_watch_volume_and_mount
      ctdb_config_volume_and_mount ctdb_persistent_volume_and_mount ctdb_volatile_volume_and_mount
      ctdb_sockets_volume_and_mount
  exclude_vols-all_members [] = refl
  exclude_vols-all_members (share ∷ gs) = exclude_vols-all_members gs
  exclude_vols-all_members (shared_state ∷ gs) = rw (exclude_vols-all_members gs) refl
  exclude_vols-all_members (joins ∷ gs) =
      exclude_vols-joins js (vols gs) (Ascending-All 0 js asc)
      ∙ ap (λ r. js ++ r) (exclude_vols-all_members gs)
  exclude_vols-all_members (os_run ∷ gs) = rw (exclude_vols-all_members gs) refl
  exclude_vols-all_members (config ∷ gs) = rw (exclude_vols-all_members gs) refl
  exclude_vols-all_members (users ∷ gs) = rw (exclude_vols-all_members gs) refl
  exclude_vols-all_members (state ∷ gs) = rw (exclude_vols-all_members gs) refl
  exclude_vols-all_members (sockets ∷ gs) = rw (exclude_vols-all_members gs) refl
  exclude_vols-all_members (watch ∷ gs) = rw (exclude_vols-all_members gs) refl
  exclude_vols-all_members (ctdb_config ∷ gs) = rw (exclude_vols-all_members gs) refl
  exclude_vols-all_members (ctdb_persistent ∷ gs) = rw (exclude_vols-all_members gs) refl
  exclude_vols-all_members (ctdb_volatile ∷ gs) = rw (exclude_vols-all_members gs) refl
  exclude_vols-all_members (ctdb_sockets ∷ gs) = rw (exclude_vols-all_members gs) refl
