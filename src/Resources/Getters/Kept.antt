-- ===== src/Resources/Getters/Kept.antt =====
-- The getters give the object that exists, and write nothing.
use samba_operator.Base.{◌≡◌, refl, String, false}
use samba_operator.Api.SmbShare.{SmbShare}
use samba_operator.Conf.{OperatorConfig}
use samba_operator.Planner.Instance.{Planner}
use samba_operator.Planner.Properties.{instance_name}
use samba_operator.Resources.Kube.{got}
use samba_operator.Resources.Attempt.{gives}
use samba_operator.Resources.Objects.{Workload, Service, PersistentVolumeClaim}
use samba_operator.Resources.Platform.{Platform}
use samba_operator.Resources.Getters.{
  object_key, found_or_nil, get_or_create, get_existing_deployment, get_existing_stateful_set,
  get_existing_pvc, pvc_by_name, state_pvc_of_size, get_or_create_deployment,
  get_or_create_stateful_set, get_or_create_generic_pvc, get_or_create_pvc, get_or_create_state_pvc,
  get_or_create_service,
}
use samba_operator.Resources.Getters.Found.{HasPvc, HasState}

module _ {W : Type 0} (p : Platform W) (cfg : OperatorConfig) (w : W) where
  pub get_or_create_deployment_found :
      (pl : Planner) (ns : String) (d : Workload)
      → p.deployments.get w (object_key ns (instance_name pl)) ≡ got d
      → get_or_create_deployment p w cfg pl ns ≡ (w, gives (false, d))
  unfolding get_or_create_deployment get_existing_deployment found_or_nil get_or_create
  get_or_create_deployment_found pl ns d h = rw h refl

  pub get_or_create_stateful_set_found :
      (pl : Planner) (ns : String) (d : Workload)
      → p.stateful_sets.get w (object_key ns (instance_name pl)) ≡ got d
      → get_or_create_stateful_set p w pl ns ≡ (w, gives (false, d))
  unfolding get_or_create_stateful_set get_existing_stateful_set found_or_nil get_or_create
  get_or_create_stateful_set_found pl ns d h = rw h refl

  pub get_or_create_service_found :
      (pl : Planner) (ns : String) (d : Service)
      → p.services.get w (object_key ns (instance_name pl)) ≡ got d
      → get_or_create_service p w pl ns ≡ (w, gives (false, d))
  unfolding get_or_create_service found_or_nil get_or_create
  get_or_create_service_found pl ns d h = rw h refl

  pub get_or_create_pvc_found :
      (s : SmbShare) (ns : String) (d : PersistentVolumeClaim)
      → HasPvc p w s ns d
      → get_or_create_pvc p w s ns ≡ (w, gives (false, d))
  unfolding get_or_create_pvc pvc_by_name get_or_create_generic_pvc get_existing_pvc found_or_nil
      get_or_create
  get_or_create_pvc_found s ns d (name, named, h) = rw named (rw h refl)

  pub get_or_create_state_pvc_found :
      (pl : Planner) (ns : String) (d : PersistentVolumeClaim)
      → HasState p w pl ns d
      → get_or_create_state_pvc p w pl ns ≡ (w, gives (false, d))
  unfolding get_or_create_state_pvc state_pvc_of_size get_or_create_generic_pvc get_existing_pvc
      found_or_nil get_or_create
  get_or_create_state_pvc_found pl ns d (size, parsed, h) = rw parsed (rw h refl)
