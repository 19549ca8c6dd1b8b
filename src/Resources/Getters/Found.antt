-- ===== src/Resources/Getters/Found.antt =====
-- What the getters have read, where they have created nothing.
use samba_operator.Base.{◌≡◌, refl, String, Bool, Option, none, some, [], ◌∷◌}
use samba_operator.Base.Panics.{Run, returns, panics}
use samba_operator.Api.Meta.{ObjectMeta}
use samba_operator.Api.SmbShare.{SmbShare, PersistentVolumeClaimSpec}
use samba_operator.Conf.{OperatorConfig}
use samba_operator.Planner.Instance.{Planner}
use samba_operator.Planner.Properties.{instance_name}
use samba_operator.Resources.Outcome.{Error, not_found, failed}
use samba_operator.Resources.Kube.{Api, Reply, got, refused}
use samba_operator.Resources.Attempt.{Attempt}
use samba_operator.Resources.Objects.{PersistentVolumeClaim}
use samba_operator.Resources.Sizes.{pvc_name, shared_state_pvc_name}
use samba_operator.Resources.Services.{new_service_for_smb}
use samba_operator.Resources.Step.{Reads, Reads-weaken, after_attempt}
use samba_operator.Resources.Platform.{Platform}
use samba_operator.Resources.Getters.{
  object_key, get_existing_deployment, get_existing_stateful_set, get_existing_pvc,
  set_workload_meta, set_pvc_meta, set_service_meta, new_deployment, new_stateful_set, new_pvc,
  found_or_nil, created, create_owned, create_built, get_or_create, get_or_create_deployment,
  get_or_create_stateful_set, get_or_create_generic_pvc, pvc_by_name, get_or_create_pvc, pvc_spec,
  state_pvc_of_size, get_or_create_state_pvc, get_or_create_service,
}

module _ {W : Type 0} (p : Platform W) where
  -- The claim of a share exists, under the name that it has for the share.
  abbrev pub HasPvc : W → SmbShare → String → PersistentVolumeClaim → Type 0
  HasPvc w s ns d =
      (name : String) × (pvc_name s ≡ returns name) × (p.pvcs.get w (object_key ns name) ≡ got d)

  -- The claim for the shared state exists, and its size is a quantity.
  abbrev pub HasState : W → Planner → String → PersistentVolumeClaim → Type 0
  HasState w pl ns d =
      (size : String) × (p.parse_quantity pl.global_config.state_pvc_size ≡ got size)
      × (p.pvcs.get w (object_key ns (shared_state_pvc_name pl)) ≡ got d)

module _ {W : Type 0} (p : Platform W) (cfg : OperatorConfig) where
  module _ {A : Type 0} (api : Api W A) (meta : A → ObjectMeta)
      (set_meta : A → ObjectMeta → A) where
    -- A creation makes the reconciliation yield.
    abbrev Yielding : W → W × Attempt (Bool × A) → Type 0
    unfolding after_attempt
    Yielding w r = Reads w (λ c obj. ⊥) (after_attempt cfg r)

    created-Yielding :
        (w : W) (obj : A) (r : W × Option Error) → Yielding w (created p api meta set_meta obj r)
    unfolding created after_attempt
    created-Yielding w obj (w', none) = refl
    created-Yielding w obj (w', some e) = refl

    owned-Yielding :
        (w : W) (obj : A) (m : Option ObjectMeta)
        → Yielding w (create_owned p api meta set_meta w obj m)
    unfolding create_owned after_attempt
    owned-Yielding w obj none = refl
    owned-Yielding w obj (some m) =
        created-Yielding w (set_meta obj m) (api.create w (set_meta obj m))

    built-Yielding :
        (w : W) (s : SmbShare) (built : Run A)
        → Yielding w (create_built p api meta set_meta w s built)
    unfolding create_built after_attempt
    built-Yielding w s panics = tt
    built-Yielding w s (returns obj) =
        owned-Yielding w obj (p.runtime.set_controller_reference s (meta obj))

    pub get_or_create-Reads :
        (w : W) (s : SmbShare) (built : Run A) (reply : Reply A)
        → Reads w
            (λ c obj. reply ≡ got obj)
            (after_attempt cfg (get_or_create p api meta set_meta w s built (found_or_nil reply)))
    unfolding get_or_create found_or_nil after_attempt
    get_or_create-Reads w s built (got obj) = (refl, refl)
    get_or_create-Reads w s built (refused (failed e)) = refl
    get_or_create-Reads w s built (refused not_found) =
        Reads-weaken (λ c obj. ⊥) (λ c obj. refused not_found ≡ got obj) w
          (after_attempt cfg (create_built p api meta set_meta w s built))
          (λ c obj never. absurd never) (built-Yielding w s built)

  pub get_or_create_deployment-Reads :
      (w : W) (pl : Planner) (ns : String)
      → Reads w
          (λ c d. p.deployments.get w (object_key ns (instance_name pl)) ≡ got d)
          (after_attempt cfg (get_or_create_deployment p w cfg pl ns))
  unfolding get_or_create_deployment get_existing_deployment
  get_or_create_deployment-Reads w pl ns =
      get_or_create-Reads p.deployments (λ d. d.metadata) set_workload_meta w pl.smb_share
        (new_deployment p cfg pl ns) (p.deployments.get w (object_key ns (instance_name pl)))

  pub get_or_create_stateful_set-Reads :
      (w : W) (pl : Planner) (ns : String)
      → Reads w
          (λ c d. p.stateful_sets.get w (object_key ns (instance_name pl)) ≡ got d)
          (after_attempt cfg (get_or_create_stateful_set p w pl ns))
  unfolding get_or_create_stateful_set get_existing_stateful_set
  get_or_create_stateful_set-Reads w pl ns =
      get_or_create-Reads p.stateful_sets (λ d. d.metadata) set_workload_meta w pl.smb_share
        (new_stateful_set p pl ns) (p.stateful_sets.get w (object_key ns (instance_name pl)))

  pub get_or_create_service-Reads :
      (w : W) (pl : Planner) (ns : String)
      → Reads w
          (λ c d. p.services.get w (object_key ns (instance_name pl)) ≡ got d)
          (after_attempt cfg (get_or_create_service p w pl ns))
  unfolding get_or_create_service
  get_or_create_service-Reads w pl ns =
      get_or_create-Reads p.services (λ d. d.metadata) set_service_meta w pl.smb_share
        (new_service_for_smb pl ns) (p.services.get w (object_key ns (instance_name pl)))

  generic_pvc-Reads :
      (w : W) (s : SmbShare) (spec : Option PersistentVolumeClaimSpec) (name ns : String)
      → Reads w
          (λ c d. p.pvcs.get w (object_key ns name) ≡ got d)
          (after_attempt cfg (get_or_create_generic_pvc p w s spec name ns))
  unfolding get_or_create_generic_pvc get_existing_pvc
  generic_pvc-Reads w s spec name ns =
      get_or_create-Reads p.pvcs (λ d. d.metadata) set_pvc_meta w s (new_pvc p spec name ns)
        (p.pvcs.get w (object_key ns name))

  pvc_by_name-Reads :
      (w : W) (s : SmbShare) (spec : Option PersistentVolumeClaimSpec) (ns : String)
      (r : Run String)
      → pvc_name s ≡ r
      → Reads w (λ c d. HasPvc p w s ns d) (after_attempt cfg (pvc_by_name p w s spec ns r))
  unfolding pvc_by_name after_attempt
  pvc_by_name-Reads w s spec ns panics h = tt
  pvc_by_name-Reads w s spec ns (returns name) h =
      Reads-weaken (λ c d. p.pvcs.get w (object_key ns name) ≡ got d) (λ c d. HasPvc p w s ns d) w
        (after_attempt cfg (get_or_create_generic_pvc p w s spec name ns))
        (λ c d found. (name, h, found)) (generic_pvc-Reads w s spec name ns)

  pub get_or_create_pvc-Reads :
      (w : W) (s : SmbShare) (ns : String)
      → Reads w (λ c d. HasPvc p w s ns d) (after_attempt cfg (get_or_create_pvc p w s ns))
  unfolding get_or_create_pvc
  get_or_create_pvc-Reads w s ns = pvc_by_name-Reads w s (pvc_spec p s) ns (pvc_name s) refl

  state_pvc-Reads :
      (w : W) (pl : Planner) (ns : String) (size : Reply String)
      → p.parse_quantity pl.global_config.state_pvc_size ≡ size
      → Reads w (λ c d. HasState p w pl ns d) (after_attempt cfg (state_pvc_of_size p w pl ns size))
  unfolding state_pvc_of_size after_attempt
  state_pvc-Reads w pl ns (refused e) h = refl
  state_pvc-Reads w pl ns (got quantity) h =
      Reads-weaken (λ c d. p.pvcs.get w (object_key ns (shared_state_pvc_name pl)) ≡ got d)
        (λ c d. HasState p w pl ns d) w _ (λ c d found. (quantity, h, found))
        (generic_pvc-Reads w pl.smb_share
          (some (record {
            access_modes = "ReadWriteMany" ∷ [];
            storage_request = quantity;
            other = "";
          }))
          (shared_state_pvc_name pl) ns)

  pub get_or_create_state_pvc-Reads :
      (w : W) (pl : Planner) (ns : String)
      → Reads w
          (λ c d. HasState p w pl ns d)
          (after_attempt cfg (get_or_create_state_pvc p w pl ns))
  unfolding get_or_create_state_pvc
  get_or_create_state_pvc-Reads w pl ns =
      state_pvc-Reads w pl ns (p.parse_quantity pl.global_config.state_pvc_size) refl
