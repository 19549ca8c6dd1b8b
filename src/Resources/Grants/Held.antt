-- ===== src/Resources/Grants/Held.antt =====
-- What exists for a share on OpenShift, where `updateForOpenshift` lets the reconciliation go on.
use samba_operator.Base.{◌≡◌, refl, sym, subst, ◌∙◌, ◌==◌, Bool, true, false, if◌then◌else◌}
use samba_operator.Api.SmbShare.{SmbShare}
use samba_operator.Conf.{OperatorConfig, cluster_type_open_shift}
use samba_operator.Resources.Kube.{got}
use samba_operator.Resources.Objects.{Namespace, ServiceAccount, Role, RoleBinding}
use samba_operator.Resources.OpenShift.{
  grant_key, metrics_role_binding, metrics_role, scc_role_binding, scc_role, service_account,
  require_annotations_of,
}
use samba_operator.Resources.Platform.{Platform}
use samba_operator.Resources.Step.{
  Reads, Reads-kept, after_attempt-kept, Reads-go, Reads-weaken, after_attempt,
}
use samba_operator.Resources.Getters.{object_key}
use samba_operator.Resources.Ensure.{ensure-Reads}
use samba_operator.Resources.Refusing.{Refusing}
use samba_operator.Resources.Namespaces.{has_namespace_labels}
use samba_operator.Resources.Namespaces.Read.{get_or_update_namespace_of-Reads}
use samba_operator.Resources.Grants.{
  cluster_typed, bind_roles, grant_all, typed_steps, update_for_openshift, new_service_account,
  new_scc_role, new_scc_role_binding, new_metrics_role, new_metrics_role_binding,
}

module _ {W : Type 0} (p : Platform W) (w : W) where
  -- The namespace has its labels, and the account, the roles and their bindings exist.
  pub record Granted (s : SmbShare) : Type 0 where
    pub ns : Namespace
    pub ns_exists : p.namespaces.get w (object_key "" s.metadata.namespace) ≡ got ns
    pub ns_labelled : has_namespace_labels ns ≡ true
    pub account : ServiceAccount
    pub account_exists : p.service_accounts.get w (grant_key s service_account) ≡ got account
    pub scc : Role
    pub scc_exists : p.roles.get w (grant_key s scc_role) ≡ got scc
    pub scc_binding : RoleBinding
    pub scc_bound : p.role_bindings.get w (grant_key s scc_role_binding) ≡ got scc_binding
    pub metrics : Role
    pub metrics_exists : p.roles.get w (grant_key s metrics_role) ≡ got metrics
    pub metrics_binding : RoleBinding
    pub metrics_bound :
        p.role_bindings.get w (grant_key s metrics_role_binding) ≡ got metrics_binding

  -- The settings and the share in memory, where the reconciliation goes on.
  pub record ForOpenShift (s : SmbShare) (cfg cfg' : OperatorConfig) (s' : SmbShare) : Type 0 where
    pub typed : cfg' ≡ cluster_typed p w cfg
    pub share :
        s' ≡ (if cfg'.cluster_type == cluster_type_open_shift then require_annotations_of s else s)
    pub granted : cfg'.cluster_type == cluster_type_open_shift ≡ true → Granted s'

  module _ (refusing : Refusing p) where
    -- The last three steps.
    roles_bound :
        (s : SmbShare) (cfg : OperatorConfig) (ns : Namespace)
        → p.namespaces.get w (object_key "" s.metadata.namespace) ≡ got ns
        → has_namespace_labels ns ≡ true
        → (account : ServiceAccount)
        → p.service_accounts.get w (grant_key s service_account) ≡ got account
        → (scc : Role) → p.roles.get w (grant_key s scc_role) ≡ got scc
        → Reads w (λ c s'. (c ≡ cfg) × (s' ≡ s) × Granted s) (bind_roles p s account scc w cfg)
    unfolding bind_roles after_attempt
    roles_bound s cfg ns ns_exists ns_labelled account account_exists scc scc_exists =
        let R : OperatorConfig → SmbShare → Type 0 = λ c s'. (c ≡ cfg) × (s' ≡ s) × Granted s in
        Reads-kept w cfg (λ b. p.role_bindings.get w (grant_key s scc_role_binding) ≡ got b) R _ _
          (after_attempt-kept w cfg _ _ (
            ensure-Reads p.is_already_exists p.role_bindings (grant_key s scc_role_binding) cfg w
              (new_scc_role_binding s account scc) refusing.role_bindings))
          (λ scc_binding scc_bound.
            Reads-kept w cfg (λ a. p.roles.get w (grant_key s metrics_role) ≡ got a) R _ _
              (after_attempt-kept w cfg _ _ (
                ensure-Reads p.is_already_exists p.roles (grant_key s metrics_role) cfg w
                  (new_metrics_role s) refusing.roles))
              (λ metrics metrics_exists.
                Reads-kept w cfg
                  (λ b. p.role_bindings.get w (grant_key s metrics_role_binding) ≡ got b) R _ _
                  (after_attempt-kept w cfg _ _ (
                    ensure-Reads p.is_already_exists p.role_bindings
                      (grant_key s metrics_role_binding) cfg w (new_metrics_role_binding s metrics)
                      refusing.role_bindings))
                  (λ metrics_binding metrics_bound. Reads-go w cfg s R (
                    refl,
                    refl,
                    record {
                      ns = ns;
                      ns_exists = ns_exists;
                      ns_labelled = ns_labelled;
                      account = account;
                      account_exists = account_exists;
                      scc = scc;
                      scc_exists = scc_exists;
                      scc_binding = scc_binding;
                      scc_bound = scc_bound;
                      metrics = metrics;
                      metrics_exists = metrics_exists;
                      metrics_binding = metrics_binding;
                      metrics_bound = metrics_bound;
                    },
                  ))))

    grant_all-Reads :
        (s : SmbShare) (cfg : OperatorConfig)
        → Reads w (λ c s'. (c ≡ cfg) × (s' ≡ s) × Granted s) (grant_all p s w cfg)
    unfolding grant_all after_attempt
    grant_all-Reads s cfg =
        let R : OperatorConfig → SmbShare → Type 0 = λ c s'. (c ≡ cfg) × (s' ≡ s) × Granted s in
        Reads-kept w cfg
          (λ ns.
            (p.namespaces.get w (object_key "" s.metadata.namespace) ≡ got ns)
            × (has_namespace_labels ns ≡ true))
          R _ _ (after_attempt-kept w cfg _ _ (get_or_update_namespace_of-Reads p w cfg s))
          (λ ns (ns_exists, ns_labelled).
            Reads-kept w cfg (λ a. p.service_accounts.get w (grant_key s service_account) ≡ got a) R
              _ _
              (after_attempt-kept w cfg _ _ (
                ensure-Reads p.is_already_exists p.service_accounts (grant_key s service_account)
                  cfg w (new_service_account s) refusing.service_accounts))
              (λ account account_exists.
                Reads-kept w cfg (λ a. p.roles.get w (grant_key s scc_role) ≡ got a) R _ _
                  (after_attempt-kept w cfg _ _ (
                    ensure-Reads p.is_already_exists p.roles (grant_key s scc_role) cfg w
                      (new_scc_role s) refusing.roles))
                  (λ scc scc_exists.
                    roles_bound s cfg ns ns_exists ns_labelled account account_exists scc
                      scc_exists)))

    typed-Reads :
        (s : SmbShare) (cfg cfg' : OperatorConfig) (b : Bool)
        → cfg' ≡ cluster_typed p w cfg
        → (cfg'.cluster_type == cluster_type_open_shift) ≡ b
        → Reads w (ForOpenShift s cfg) (typed_steps p s b w cfg')
    unfolding typed_steps
    typed-Reads s cfg cfg' false typed e =
        Reads-go w cfg' s (ForOpenShift s cfg)
          (record { typed = typed; share = rw e refl; granted = λ h. cc (h, e) })
    typed-Reads s cfg cfg' true typed e =
        let t = require_annotations_of s in
        Reads-weaken (λ c s'. (c ≡ cfg') × (s' ≡ t) × Granted t) (ForOpenShift s cfg) w
          (grant_all p t w cfg')
          (λ c s' (same, is, granted). record {
            typed = same ∙ typed;
            share = is ∙ sym (rw (same, e) refl);
            granted = λ h. subst (λ x. Granted x) (sym is) granted;
          })
          (grant_all-Reads t cfg')

    pub update_for_openshift-Reads :
        (s : SmbShare) (cfg : OperatorConfig)
        → Reads w (ForOpenShift s cfg) (update_for_openshift p s w cfg)
    unfolding update_for_openshift
    update_for_openshift-Reads s cfg =
        typed-Reads s cfg (cluster_typed p w cfg)
          ((cluster_typed p w cfg).cluster_type == cluster_type_open_shift) refl refl
