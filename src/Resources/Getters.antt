-- ===== src/Resources/Getters.antt =====
-- internal/resources/getters.go: the methods that get or create the objects of a server. Logging is
-- left out. The flag of an answer says whether the object was created.
pub mod Found
pub mod Kept
pub mod Writes
use samba_operator.Base.{String, Bool, true, false, Option, none, some, [], ◌∷◌}
use samba_operator.Base.Panics.{Run, returns, panics, ◌>>=◌, deref}
use samba_operator.Api.Meta.{ObjectMeta, NamespacedName}
use samba_operator.Api.SmbShare.{SmbShare, PersistentVolumeClaimSpec}
use samba_operator.Conf.{OperatorConfig}
use samba_operator.Planner.Instance.{Planner}
use samba_operator.Planner.Properties.{instance_name}
use samba_operator.Resources.Outcome.{Error, not_found, failed}
use samba_operator.Resources.Kube.{Api, Reply, got, refused}
use samba_operator.Resources.Attempt.{Attempt, gives, errs, crashes}
use samba_operator.Resources.Objects.{Workload, Service, PersistentVolumeClaim}
use samba_operator.Resources.Workloads.{new_meta, build_deployment, build_stateful_set}
use samba_operator.Resources.Services.{new_service_for_smb}
use samba_operator.Resources.Sizes.{pvc_name, shared_state_pvc_name}
use samba_operator.Resources.Platform.{Platform}

abbrev pub object_key : String → String → NamespacedName
object_key ns name = record { namespace = ns; name = name }

-- An object that is not found is nil, which is no error.
unfoldable pub found_or_nil : {A : Type 0} → Reply A → Attempt (Option A)
found_or_nil (got a) = gives (some a)
found_or_nil (refused not_found) = gives none
found_or_nil (refused (failed e)) = errs (failed e)

abbrev pub set_workload_meta : Workload → ObjectMeta → Workload
set_workload_meta obj m = record obj { metadata = m }

abbrev pub set_service_meta : Service → ObjectMeta → Service
set_service_meta obj m = record obj { metadata = m }

abbrev pub set_pvc_meta : PersistentVolumeClaim → ObjectMeta → PersistentVolumeClaim
set_pvc_meta obj m = record obj { metadata = m }

module _ {W : Type 0} (p : Platform W) where
  module _ {A : Type 0} (api : Api W A) (meta : A → ObjectMeta)
      (set_meta : A → ObjectMeta → A) where
    created : A → W × Option Error → W × Attempt (Bool × A)
    created obj (w, none) = (w, gives (true, obj))
    created obj (w, some e) = (w, errs e)

    create_owned : W → A → Option ObjectMeta → W × Attempt (Bool × A)
    unfolding created
    create_owned w obj none = (w, errs (failed "unable to set the controller reference"))
    create_owned w obj (some m) = created (set_meta obj m) (api.create w (set_meta obj m))

    -- The share becomes the owner and the controller of the new object.
    create_built : W → SmbShare → Run A → W × Attempt (Bool × A)
    unfolding create_owned
    create_built w s panics = (w, crashes)
    create_built w s (returns obj) =
        create_owned w obj (p.runtime.set_controller_reference s (meta obj))

    -- What all of the methods do: the object that exists, or the one that is built.
    unfoldable pub get_or_create :
        W → SmbShare → Run A → Attempt (Option A) → W × Attempt (Bool × A)
    unfolding create_built
    get_or_create w s built (errs e) = (w, errs e)
    get_or_create w s built crashes = (w, crashes)
    get_or_create w s built (gives (some obj)) = (w, gives (false, obj))
    get_or_create w s built (gives none) = create_built w s built

  unfoldable pub get_existing_deployment : W → Planner → String → Attempt (Option Workload)
  unfolding found_or_nil instance_name
  get_existing_deployment w pl ns =
      found_or_nil (p.deployments.get w (object_key ns (instance_name pl)))

  unfoldable pub get_existing_stateful_set : W → Planner → String → Attempt (Option Workload)
  unfolding found_or_nil instance_name
  get_existing_stateful_set w pl ns =
      found_or_nil (p.stateful_sets.get w (object_key ns (instance_name pl)))

  unfoldable pub get_existing_pvc : W → String → String → Attempt (Option PersistentVolumeClaim)
  unfolding found_or_nil
  get_existing_pvc w name ns = found_or_nil (p.pvcs.get w (object_key ns name))

  -- The name of the volume claim is read through a pointer.
  unfoldable pub new_deployment : OperatorConfig → Planner → String → Run Workload
  unfolding build_deployment
  new_deployment cfg pl ns = do
    pvc ← deref pl.smb_share.spec.storage.pvc
    build_deployment p.unmarshal cfg pl pvc.name ns

  unfoldable pub get_or_create_deployment :
      W → OperatorConfig → Planner → String → W × Attempt (Bool × Workload)
  unfolding get_or_create get_existing_deployment new_deployment
  get_or_create_deployment w cfg pl ns =
      get_or_create p.deployments (λ d. d.metadata) set_workload_meta w pl.smb_share
        (new_deployment cfg pl ns) (get_existing_deployment w pl ns)

  unfoldable pub new_stateful_set : Planner → String → Run Workload
  unfolding build_stateful_set shared_state_pvc_name
  new_stateful_set pl ns = do
    pvc ← deref pl.smb_share.spec.storage.pvc
    build_stateful_set p.unmarshal pl pvc.name (shared_state_pvc_name pl) ns

  unfoldable pub get_or_create_stateful_set : W → Planner → String → W × Attempt (Bool × Workload)
  unfolding get_or_create get_existing_stateful_set new_stateful_set
  get_or_create_stateful_set w pl ns =
      get_or_create p.stateful_sets (λ d. d.metadata) set_workload_meta w pl.smb_share
        (new_stateful_set pl ns) (get_existing_stateful_set w pl ns)

  unfoldable pub new_pvc :
      Option PersistentVolumeClaimSpec → String → String → Run PersistentVolumeClaim
  new_pvc spec name ns = do
    claim ← deref spec
    returns (record { metadata = new_meta name ns [] []; spec = claim })

  unfoldable pub get_or_create_generic_pvc :
      W
      → SmbShare
      → Option PersistentVolumeClaimSpec
      → String
      → String
      → W × Attempt (Bool × PersistentVolumeClaim)
  unfolding get_or_create get_existing_pvc new_pvc
  get_or_create_generic_pvc w s spec name ns =
      get_or_create p.pvcs (λ d. d.metadata) set_pvc_meta w s (new_pvc spec name ns)
        (get_existing_pvc w name ns)

  -- The claim of the share itself, by its name or the one made of the share's.
  pvc_by_name :
      W
      → SmbShare
      → Option PersistentVolumeClaimSpec
      → String
      → Run String
      → W × Attempt (Bool × PersistentVolumeClaim)
  unfolding get_or_create_generic_pvc
  pvc_by_name w s spec ns panics = (w, crashes)
  pvc_by_name w s spec ns (returns name) = get_or_create_generic_pvc w s spec name ns

  abbrev pub pvc_spec : SmbShare → Option PersistentVolumeClaimSpec
  pvc_spec s = elim s.spec.storage.pvc [ none ↦ none | some pvc ↦ pvc.spec ]

  unfoldable pub get_or_create_pvc :
      W → SmbShare → String → W × Attempt (Bool × PersistentVolumeClaim)
  unfolding pvc_by_name pvc_name
  get_or_create_pvc w s ns = pvc_by_name w s (pvc_spec s) ns (pvc_name s)

  state_pvc_of_size :
      W → Planner → String → Reply String → W × Attempt (Bool × PersistentVolumeClaim)
  unfolding get_or_create_generic_pvc shared_state_pvc_name
  state_pvc_of_size w pl ns (refused e) = (w, errs e)
  state_pvc_of_size w pl ns (got quantity) =
      let spec : PersistentVolumeClaimSpec = record {
        access_modes = "ReadWriteMany" ∷ [];
        storage_request = quantity;
        other = "";
      } in
      get_or_create_generic_pvc w pl.smb_share (some spec) (shared_state_pvc_name pl) ns

  unfoldable pub get_or_create_state_pvc :
      W → Planner → String → W × Attempt (Bool × PersistentVolumeClaim)
  unfolding state_pvc_of_size
  get_or_create_state_pvc w pl ns =
      state_pvc_of_size w pl ns (p.parse_quantity pl.global_config.state_pvc_size)

  unfoldable pub get_or_create_service : W → Planner → String → W × Attempt (Bool × Service)
  unfolding get_or_create found_or_nil instance_name new_service_for_smb
  get_or_create_service w pl ns =
      get_or_create p.services (λ d. d.metadata) set_service_meta w pl.smb_share
        (new_service_for_smb pl ns)
        (found_or_nil (p.services.get w (object_key ns (instance_name pl))))
