-- ===== src/Resources/Grants.antt =====
-- internal/resources/openshift.go: what is created for a share on OpenShift, `updateForOpenshift`,
-- and how the operator finds out that it runs there.
pub mod Held
pub mod Kept
pub mod Writes
use samba_operator.Base.{
  String, ◌==◌, Bool, true, false, ◌||◌, ◌&&◌, not, is_some, Option, none, some, List, [], ◌∷◌,
  if◌then◌else◌,
}
use samba_operator.Base.Dict.{Dict}
use samba_operator.Base.Strings.{has_substring}
use samba_operator.Api.Meta.{NamespacedName}
use samba_operator.Api.SmbShare.{SmbShare}
use samba_operator.Conf.{OperatorConfig, cluster_type_open_shift, cluster_type_default}
use samba_operator.Resources.Outcome.{Error}
use samba_operator.Resources.Kube.{Reply, got, refused}
use samba_operator.Resources.Attempt.{Attempt}
use samba_operator.Resources.Objects.{ServiceAccount, Role, RoleBinding, PolicyRule, Subject}
use samba_operator.Resources.Labels.{samba_scc_name}
use samba_operator.Resources.Workloads.{new_meta}
use samba_operator.Resources.OpenShift.{
  Grant, grant_name, grant_key, metrics_role_binding, metrics_role, scc_role_binding, scc_role,
  service_account, require_annotations_of, update_cluster_type,
}
use samba_operator.Resources.Platform.{Platform}
use samba_operator.Resources.Step.{Step, pass, attempt, ◌>>=◌, ◌>>◌}
use samba_operator.Resources.Getters.{object_key}
use samba_operator.Resources.Ensure.{ensure}
use samba_operator.Resources.Namespaces.{get_or_update_namespace_of}

unfoldable pub new_service_account : SmbShare → ServiceAccount
new_service_account s = record {
  metadata = new_meta (grant_name service_account) s.metadata.namespace [] [];
  automount_service_account_token = some true;
}

abbrev read_verbs : List String
read_verbs = "get" ∷ "list" ∷ "watch" ∷ []

unfoldable pub new_scc_role : SmbShare → Role
new_scc_role s = record {
  metadata = new_meta (grant_name scc_role) s.metadata.namespace [] [];
  rules =
      record {
        api_groups = "security.openshift.io" ∷ [];
        resources = "securitycontextconstraints" ∷ [];
        resource_names = samba_scc_name ∷ [];
        verbs = "use" ∷ [];
      }
      ∷ record {
        api_groups = "" ∷ [];
        resources = "namespaces" ∷ "services" ∷ "pods" ∷ [];
        resource_names = [];
        verbs = read_verbs;
      }
      ∷ [];
}

unfoldable pub new_scc_role_binding : SmbShare → ServiceAccount → Role → RoleBinding
new_scc_role_binding s sa role = record {
  metadata = new_meta (grant_name scc_role_binding) s.metadata.namespace [] [];
  subjects =
      record { kind = "ServiceAccount"; name = sa.metadata.name; namespace = sa.metadata.namespace }
      ∷ [];
  role_kind = "Role";
  role_name = role.metadata.name;
}

unfoldable pub new_metrics_role : SmbShare → Role
new_metrics_role s = record {
  metadata = new_meta (grant_name metrics_role) s.metadata.namespace [] [];
  rules =
      record {
        api_groups = "" ∷ [];
        resources = "services" ∷ "endpoints" ∷ "pods" ∷ [];
        resource_names = [];
        verbs = read_verbs;
      }
      ∷ [];
}

unfoldable pub new_metrics_role_binding : SmbShare → Role → RoleBinding
new_metrics_role_binding s role = record {
  metadata = new_meta (grant_name metrics_role_binding) s.metadata.namespace [] [];
  subjects =
      record {
        kind = "ServiceAccount";
        name = "prometheus-k8s";
        namespace = "openshift-monitoring";
      }
      ∷ [];
  role_kind = "Role";
  role_name = role.metadata.name;
}

unfoldable pub any_key_has : String → Dict String → Bool
unfolding has_substring
any_key_has text [] = false
any_key_has text ((k, v) ∷ m) = has_substring k text || any_key_has text m

module _ {W : Type 0} (p : Platform W) where
  type_of_pod : Reply (Dict String) → String × Option Error
  unfolding any_key_has
  type_of_pod (refused e) = (cluster_type_default, some e)
  type_of_pod (got annotations) = (
    if any_key_has cluster_type_open_shift annotations
        then cluster_type_open_shift
        else cluster_type_default,
    none,
  )

  unfoldable pub resolve_cluster_type_by_pod : W → NamespacedName → String × Option Error
  unfolding type_of_pod
  resolve_cluster_type_by_pod w key = type_of_pod (p.pod_annotations w key)

  unfoldable pub is_open_shift_cluster : W → OperatorConfig → Bool
  unfolding resolve_cluster_type_by_pod
  is_open_shift_cluster w cfg =
      let (kind, err) = resolve_cluster_type_by_pod w (object_key cfg.pod_namespace cfg.pod_name) in
      not (is_some err) && kind == cluster_type_open_shift

  unfoldable pub get_or_create_service_account_of :
      SmbShare → W → W × Attempt (Bool × ServiceAccount)
  unfolding ensure new_service_account
  get_or_create_service_account_of s w =
      ensure p.is_already_exists p.service_accounts (grant_key s service_account) w
        (new_service_account s)

  unfoldable pub get_or_create_scc_role_of : SmbShare → W → W × Attempt (Bool × Role)
  unfolding ensure new_scc_role
  get_or_create_scc_role_of s w =
      ensure p.is_already_exists p.roles (grant_key s scc_role) w (new_scc_role s)

  unfoldable pub get_or_create_scc_role_binding_of :
      SmbShare → ServiceAccount → Role → W → W × Attempt (Bool × RoleBinding)
  unfolding ensure new_scc_role_binding
  get_or_create_scc_role_binding_of s sa role w =
      ensure p.is_already_exists p.role_bindings (grant_key s scc_role_binding) w
        (new_scc_role_binding s sa role)

  unfoldable pub get_or_create_metrics_role_of : SmbShare → W → W × Attempt (Bool × Role)
  unfolding ensure new_metrics_role
  get_or_create_metrics_role_of s w =
      ensure p.is_already_exists p.roles (grant_key s metrics_role) w (new_metrics_role s)

  unfoldable pub get_or_create_metrics_role_binding_of :
      SmbShare → Role → W → W × Attempt (Bool × RoleBinding)
  unfolding ensure new_metrics_role_binding
  get_or_create_metrics_role_binding_of s role w =
      ensure p.is_already_exists p.role_bindings (grant_key s metrics_role_binding) w
        (new_metrics_role_binding s role)

  -- The settings that `updateClusterType` leaves.
  unfoldable pub cluster_typed : W → OperatorConfig → OperatorConfig
  unfolding is_open_shift_cluster update_cluster_type
  cluster_typed w cfg = update_cluster_type (is_open_shift_cluster w cfg) cfg

  -- What comes after the namespace, the service account and the role for the pods.
  unfoldable pub bind_roles : SmbShare → ServiceAccount → Role → Step W SmbShare
  unfolding get_or_create_scc_role_binding_of get_or_create_metrics_role_of
      get_or_create_metrics_role_binding_of
  bind_roles s sa scc = do
    scc_binding ← attempt (get_or_create_scc_role_binding_of s sa scc)
    metrics ← attempt (get_or_create_metrics_role_of s)
    metrics_binding ← attempt (get_or_create_metrics_role_binding_of s metrics)
    pass s

  -- The steps on OpenShift. The share is the one in memory, with its annotation.
  unfoldable pub grant_all : SmbShare → Step W SmbShare
  unfolding get_or_update_namespace_of get_or_create_service_account_of get_or_create_scc_role_of
      bind_roles
  grant_all s = do
    ns ← attempt (λ w. get_or_update_namespace_of p w s)
    sa ← attempt (get_or_create_service_account_of s)
    scc ← attempt (get_or_create_scc_role_of s)
    bind_roles s sa scc

  typed_steps : SmbShare → Bool → Step W SmbShare
  unfolding grant_all require_annotations_of
  typed_steps s true = grant_all (require_annotations_of s)
  typed_steps s false = pass s

  unfoldable pub update_for_openshift : SmbShare → Step W SmbShare
  unfolding typed_steps cluster_typed
  update_for_openshift s w cfg =
      let cfg' = cluster_typed w cfg in
      typed_steps s (cfg'.cluster_type == cluster_type_open_shift) w cfg'
