-- ===== src/Resources/Platform.antt =====
-- All that the manager is given: the client's calls for every kind of object, the helpers of the
-- controller runtime, and the decoders. They are third-party code, so they are parameters.
use samba_operator.Base.{String, Bool, Option, none, some}
use samba_operator.Base.Dict.{Dict}
use samba_operator.Api.Meta.{NamespacedName}
use samba_operator.Resources.Outcome.{Error}
use samba_operator.Resources.Kube.{Api, Client, Codec, Runtime, Reply, got, refused}
use samba_operator.Resources.Objects.{
  Workload, Service, PersistentVolumeClaim, Namespace, ServiceAccount, Role, RoleBinding,
  ServiceMonitor,
}
use samba_operator.Resources.OpenShift.{
  Grant, GrantApi, metrics_role_binding, metrics_role, scc_role_binding, scc_role, service_account,
}

pub record Platform (W : Type 0) : Type 0 where
  pub client : Client W
  pub runtime : Runtime
  pub codec : Codec
  pub deployments : Api W Workload
  pub stateful_sets : Api W Workload
  pub pvcs : Api W PersistentVolumeClaim
  pub services : Api W Service
  pub service_monitors : Api W ServiceMonitor
  pub namespaces : Api W Namespace
  pub service_accounts : Api W ServiceAccount
  pub roles : Api W Role
  pub role_bindings : Api W RoleBinding
  pub delete_grant : W → Grant → NamespacedName → W × Option Error
  -- The annotations of a pod.
  pub pod_annotations : W → NamespacedName → Reply (Dict String)
  -- errors.IsAlreadyExists
  pub is_already_exists : Error → Bool
  -- kresource.ParseQuantity
  pub parse_quantity : String → Reply String
  -- The JSON decoding of a node selector.
  pub unmarshal : String → Option (Dict String)
  -- The API version and the kind that a share has in memory.
  pub api_version : String
  pub kind : String

abbrev refusal : {A : Type 0} → Reply A → Option Error
refusal (got a) = none
refusal (refused e) = some e

module _ {W : Type 0} (p : Platform W) where
  grant_error : W → Grant → NamespacedName → Option Error
  grant_error w metrics_role_binding key = refusal (p.role_bindings.get w key)
  grant_error w metrics_role key = refusal (p.roles.get w key)
  grant_error w scc_role_binding key = refusal (p.role_bindings.get w key)
  grant_error w scc_role key = refusal (p.roles.get w key)
  grant_error w service_account key = refusal (p.service_accounts.get w key)

  unfoldable pub grants_of : GrantApi W
  unfolding grant_error
  grants_of = record { get = grant_error; delete = p.delete_grant }
