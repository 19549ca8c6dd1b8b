-- ===== src/Resources/Pods/Groups.antt =====
-- internal/resources/pods.go: the keepers of the pods, as lists of the kinds of volumes that they
-- hold. Kinds that differ have volumes with names that differ.
use samba_operator.Base.{
  String, ◌≡◌, refl, ap, ℕ, arith, List, [], ◌∷◌, ◌++◌, Bool, true, false, not, ◌&&◌, ◌||◌, All,
  eqb, ne→eq-false,
}
use samba_operator.Base.Panics.{returns}
use samba_operator.Planner.Instance.{Planner}
use samba_operator.Planner.Paths.{service_watch_state_dir}
use samba_operator.Resources.Volumes.{VolMount, all}
use samba_operator.Resources.Volumes.Sources.{
  share_volume_and_mount, ctdb_shared_state_volume_and_mount, os_run_volume_and_mount,
  config_volume_and_mount, user_config_volume_and_mount, samba_state_volume_and_mount,
  wb_sockets_volume_and_mount, svc_watch_volume_and_mount, ctdb_config_volume_and_mount,
  ctdb_persistent_volume_and_mount, ctdb_volatile_volume_and_mount, ctdb_sockets_volume_and_mount,
}
use samba_operator.Resources.Volumes.Distinct.{
  Paired, Differs, Distinct, All-map, All-++, Distinct-++, all-eq-returns,
}
use samba_operator.Resources.Pods.Names.{kind_number, kind_number-smb, kind_number-ctdb}
use samba_operator.Resources.Pods.Ascending.{Ascending, Ascending-All, Ascending-Distinct}

pub data Group : Type 0 where
  share : Group
  shared_state : Group
  joins : Group
  os_run : Group
  config : Group
  users : Group
  state : Group
  sockets : Group
  watch : Group
  ctdb_config : Group
  ctdb_persistent : Group
  ctdb_volatile : Group
  ctdb_sockets : Group

abbrev pub number : Group → ℕ
number share = 0
number shared_state = 1
number joins = 2
number os_run = 3
number config = 4
number users = 5
number state = 6
number sockets = 7
number watch = 8
number ctdb_config = 9
number ctdb_persistent = 10
number ctdb_volatile = 11
number ctdb_sockets = 12

abbrev pub has : List Group → ℕ → Bool
has [] n = false
has (g ∷ gs) n = eqb (number g) n || has gs n

-- No group is listed twice.
abbrev pub once : List Group → Bool
once [] = true
once (g ∷ gs) = not (has gs (number g)) && once gs

-- The keeper's volumes, for the names of the claims and the volumes of the join data.
module _ (pl : Planner) (data_pvc state_pvc : String) (js : List VolMount) where
  abbrev pub members : Group → List VolMount
  members share = share_volume_and_mount pl data_pvc ∷ []
  members shared_state = ctdb_shared_state_volume_and_mount pl state_pvc ∷ []
  members joins = js
  members os_run = os_run_volume_and_mount pl ∷ []
  members config = config_volume_and_mount pl ∷ []
  members users = user_config_volume_and_mount pl ∷ []
  members state = samba_state_volume_and_mount pl ∷ []
  members sockets = wb_sockets_volume_and_mount pl ∷ []
  members watch = svc_watch_volume_and_mount service_watch_state_dir ∷ []
  members ctdb_config = ctdb_config_volume_and_mount pl ∷ []
  members ctdb_persistent = ctdb_persistent_volume_and_mount pl ∷ []
  members ctdb_volatile = ctdb_volatile_volume_and_mount pl ∷ []
  members ctdb_sockets = ctdb_sockets_volume_and_mount pl ∷ []

  abbrev pub all_members : List Group → List VolMount
  all_members [] = []
  all_members (g ∷ gs) = members g ++ all_members gs

  module _ (asc : Ascending 0 js) where
    abbrev Kind : ℕ → VolMount → Type 0
    Kind n v = kind_number v.volume.name ≡ n

    pub members-Paired : (g : Group) → All Paired (members g)
    unfolding share_volume_and_mount ctdb_shared_state_volume_and_mount os_run_volume_and_mount
        config_volume_and_mount user_config_volume_and_mount samba_state_volume_and_mount
        wb_sockets_volume_and_mount svc_watch_volume_and_mount ctdb_config_volume_and_mount
        ctdb_persistent_volume_and_mount ctdb_volatile_volume_and_mount
        ctdb_sockets_volume_and_mount
    members-Paired share = (refl, tt)
    members-Paired shared_state = (refl, tt)
    members-Paired joins = All-map (λ v j. j.0) js (Ascending-All 0 js asc)
    members-Paired os_run = (refl, tt)
    members-Paired config = (refl, tt)
    members-Paired users = (refl, tt)
    members-Paired state = (refl, tt)
    members-Paired sockets = (refl, tt)
    members-Paired watch = (refl, tt)
    members-Paired ctdb_config = (refl, tt)
    members-Paired ctdb_persistent = (refl, tt)
    members-Paired ctdb_volatile = (refl, tt)
    members-Paired ctdb_sockets = (refl, tt)

    members-Kind : (g : Group) → All (Kind (number g)) (members g)
    unfolding share_volume_and_mount ctdb_shared_state_volume_and_mount os_run_volume_and_mount
        config_volume_and_mount user_config_volume_and_mount samba_state_volume_and_mount
        wb_sockets_volume_and_mount svc_watch_volume_and_mount ctdb_config_volume_and_mount
        ctdb_persistent_volume_and_mount ctdb_volatile_volume_and_mount
        ctdb_sockets_volume_and_mount kind_number
    members-Kind share = (kind_number-smb data_pvc, tt)
    members-Kind shared_state = (kind_number-ctdb state_pvc, tt)
    members-Kind joins = All-map (λ v j. j.1) js (Ascending-All 0 js asc)
    members-Kind os_run = (refl, tt)
    members-Kind config = (refl, tt)
    members-Kind users = (refl, tt)
    members-Kind state = (refl, tt)
    members-Kind sockets = (refl, tt)
    members-Kind watch = (refl, tt)
    members-Kind ctdb_config = (refl, tt)
    members-Kind ctdb_persistent = (refl, tt)
    members-Kind ctdb_volatile = (refl, tt)
    members-Kind ctdb_sockets = (refl, tt)

    members-Distinct : (g : Group) → Distinct (members g)
    members-Distinct share = (tt, tt)
    members-Distinct shared_state = (tt, tt)
    members-Distinct joins = Ascending-Distinct 0 js asc
    members-Distinct os_run = (tt, tt)
    members-Distinct config = (tt, tt)
    members-Distinct users = (tt, tt)
    members-Distinct state = (tt, tt)
    members-Distinct sockets = (tt, tt)
    members-Distinct watch = (tt, tt)
    members-Distinct ctdb_config = (tt, tt)
    members-Distinct ctdb_persistent = (tt, tt)
    members-Distinct ctdb_volatile = (tt, tt)
    members-Distinct ctdb_sockets = (tt, tt)

    all_members-Paired : (gs : List Group) → All Paired (all_members gs)
    all_members-Paired [] = tt
    all_members-Paired (g ∷ gs) =
        All-++ Paired (members g) (all_members gs) (members-Paired g) (all_members-Paired gs)

    abbrev Listed : List Group → VolMount → Type 0
    Listed gs v = has gs (kind_number v.volume.name) ≡ true

    Listed-self :
        (g : Group) (gs : List Group) (v : VolMount) → Kind (number g) v → Listed (g ∷ gs) v
    Listed-self g gs v e = rw e (ground arith)

    Listed-∷ : (g : Group) (gs : List Group) (v : VolMount) → Listed gs v → Listed (g ∷ gs) v
    Listed-∷ g gs v l = rw l (ground arith)

    all_members-Listed : (gs : List Group) → All (Listed gs) (all_members gs)
    all_members-Listed [] = tt
    all_members-Listed (g ∷ gs) =
        All-++ (Listed (g ∷ gs)) (members g) (all_members gs)
          (All-map (Listed-self g gs) (members g) (members-Kind g))
          (All-map (Listed-∷ g gs) (all_members gs) (all_members-Listed gs))

    -- A volume of a kind that is not listed differs from all that are.
    Kind-Differs :
        (gs : List Group) (n : ℕ)
        → has gs n ≡ false
        → (v : VolMount) → Kind n v
        → All (Differs v) (all_members gs)
    Kind-Differs gs n out v kind =
        All-map
          (λ w listed.
            ne→eq-false v.volume.name w.volume.name λ e. cc (out, kind, listed, ap kind_number e))
          (all_members gs) (all_members-Listed gs)

    pub all_members-Distinct : (gs : List Group) → once gs ≡ true → Distinct (all_members gs)
    all_members-Distinct [] h = tt
    all_members-Distinct (g ∷ gs) h =
        Distinct-++ (members g) (all_members gs) (members-Distinct g)
          (all_members-Distinct gs (ground arith))
          (All-map (Kind-Differs gs (number g) (ground arith)) (members g) (members-Kind g))

    -- Asking a keeper of such volumes for them never panics.
    pub all-all_members :
        (gs : List Group)
        → once gs ≡ true
        → all (record { vols = all_members gs }) ≡ returns (all_members gs)
    all-all_members gs h =
        all-eq-returns (all_members gs) (all_members-Paired gs) (all_members-Distinct gs h)
