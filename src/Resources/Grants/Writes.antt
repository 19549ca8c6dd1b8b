-- ===== src/Resources/Grants/Writes.antt =====
-- The steps for OpenShift write at most once.
use samba_operator.Base.{refl, ◌==◌, Bool, true, false}
use samba_operator.Api.Meta.{NamespacedName}
use samba_operator.Api.SmbShare.{SmbShare}
use samba_operator.Conf.{OperatorConfig, cluster_type_open_shift}
use samba_operator.Resources.Objects.{ServiceAccount, Role, RoleBinding}
use samba_operator.Resources.OpenShift.{
  grant_key, metrics_role_binding, metrics_role, scc_role_binding, scc_role, service_account,
  require_annotations_of,
}
use samba_operator.Resources.Platform.{Platform}
use samba_operator.Resources.Refusing.{Refusing}
use samba_operator.Resources.Ensure.{ensure}
use samba_operator.Resources.Ensure.Writes.{ensure-Answers}
use samba_operator.Resources.Namespaces.{get_or_update_namespace_of}
use samba_operator.Resources.Namespaces.Writes.{get_or_update_namespace_of-Answers}
use samba_operator.Resources.Once.{Answers, Once, attempt-Once}
use samba_operator.Resources.Written.{
  Written, account_created, role_created, binding_created, namespace_updated,
}
use samba_operator.Resources.Grants.{
  new_service_account, new_scc_role, new_scc_role_binding, new_metrics_role,
  new_metrics_role_binding, get_or_create_service_account_of, get_or_create_scc_role_of,
  get_or_create_scc_role_binding_of, get_or_create_metrics_role_of,
  get_or_create_metrics_role_binding_of, cluster_typed, bind_roles, grant_all, typed_steps,
  update_for_openshift,
}

module _ {W : Type 0} (p : Platform W) (refusing : Refusing p) (w : W) (s : SmbShare) where
  role-Answers :
      (key : NamespacedName) (want : Role)
      → Answers (Written p) w (ensure p.is_already_exists p.roles key w want)
  role-Answers key want =
      ensure-Answers (Written p) p.is_already_exists p.roles key refusing.roles w
        (λ r. role_created w r) want

  binding-Answers :
      (key : NamespacedName) (want : RoleBinding)
      → Answers (Written p) w (ensure p.is_already_exists p.role_bindings key w want)
  binding-Answers key want =
      ensure-Answers (Written p) p.is_already_exists p.role_bindings key refusing.role_bindings w
        (λ b. binding_created w b) want

  bind_roles-Once :
      (sa : ServiceAccount) (scc : Role) (cfg : OperatorConfig)
      → Once (Written p) w (bind_roles p s sa scc w cfg)
  unfolding bind_roles get_or_create_scc_role_binding_of get_or_create_metrics_role_of
      get_or_create_metrics_role_binding_of
  bind_roles-Once sa scc cfg =
      attempt-Once (Written p) w (get_or_create_scc_role_binding_of p s sa scc) _ cfg
        (binding-Answers (grant_key s scc_role_binding) (new_scc_role_binding s sa scc))
        (λ cfg scc_binding.
          attempt-Once (Written p) w (get_or_create_metrics_role_of p s) _ cfg
            (role-Answers (grant_key s metrics_role) (new_metrics_role s))
            (λ cfg metrics.
              attempt-Once (Written p) w (get_or_create_metrics_role_binding_of p s metrics) _ cfg
                (binding-Answers (grant_key s metrics_role_binding)
                  (new_metrics_role_binding s metrics))
                (λ cfg bound. refl)))

  grant_all-Once : (cfg : OperatorConfig) → Once (Written p) w (grant_all p s w cfg)
  unfolding grant_all get_or_create_service_account_of get_or_create_scc_role_of
  grant_all-Once cfg =
      attempt-Once (Written p) w (λ w. get_or_update_namespace_of p w s) _ cfg
        (get_or_update_namespace_of-Answers (Written p) p w (λ ns. namespace_updated w ns) s)
        (λ cfg ns.
          attempt-Once (Written p) w (get_or_create_service_account_of p s) _ cfg
            (ensure-Answers (Written p) p.is_already_exists p.service_accounts
              (grant_key s service_account) refusing.service_accounts w (λ a. account_created w a)
              (new_service_account s))
            (λ cfg sa.
              attempt-Once (Written p) w (get_or_create_scc_role_of p s) _ cfg
                (role-Answers (grant_key s scc_role) (new_scc_role s))
                (λ cfg scc. bind_roles-Once sa scc cfg)))

module _ {W : Type 0} (p : Platform W) (refusing : Refusing p) (w : W) (s : SmbShare) where
  typed_steps-Once :
      (b : Bool) (cfg : OperatorConfig) → Once (Written p) w (typed_steps p s b w cfg)
  unfolding typed_steps
  typed_steps-Once true cfg = grant_all-Once p refusing w (require_annotations_of s) cfg
  typed_steps-Once false cfg = refl

  pub update_for_openshift-Once :
      (cfg : OperatorConfig) → Once (Written p) w (update_for_openshift p s w cfg)
  unfolding update_for_openshift
  update_for_openshift-Once cfg =
      typed_steps-Once ((cluster_typed p w cfg).cluster_type == cluster_type_open_shift)
        (cluster_typed p w cfg)
