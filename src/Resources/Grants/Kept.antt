-- ===== src/Resources/Grants/Kept.antt =====
-- Where all that OpenShift asks for exists, `updateForOpenshift` writes nothing.
use samba_operator.Base.{◌≡◌, refl, sym, ap, subst, ◌∙◌, ◌==◌, Bool, true, false, if◌then◌else◌}
use samba_operator.Api.SmbShare.{SmbShare}
use samba_operator.Conf.{OperatorConfig, cluster_type_open_shift}
use samba_operator.Resources.Attempt.{gives}
use samba_operator.Resources.OpenShift.{
  grant_key, metrics_role_binding, metrics_role, scc_role_binding, scc_role, service_account,
  require_annotations_of,
}
use samba_operator.Resources.Platform.{Platform}
use samba_operator.Resources.Step.{go, after_attempt}
use samba_operator.Resources.Ensure.{ensure_found}
use samba_operator.Resources.Namespaces.{label_namespace, get_or_update_namespace_of}
use samba_operator.Resources.Grants.{
  bind_roles, grant_all, typed_steps, update_for_openshift, new_service_account, new_scc_role,
  new_scc_role_binding, new_metrics_role, new_metrics_role_binding,
}
use samba_operator.Resources.Grants.Held.{Granted, ForOpenShift}

module _ {W : Type 0} (p : Platform W) (w : W) where
  namespace_kept :
      (s : SmbShare) (g : Granted p w s)
      → get_or_update_namespace_of p w s ≡ (w, gives (false, g.ns))
  unfolding get_or_update_namespace_of label_namespace
  namespace_kept s g = rw (g.ns_exists, g.ns_labelled) refl

  bind_roles_kept :
      (s : SmbShare) (cfg : OperatorConfig) (g : Granted p w s)
      → bind_roles p s g.account g.scc w cfg ≡ go w cfg s
  unfolding bind_roles after_attempt
  bind_roles_kept s cfg g =
      rw
        (
          ensure_found p.is_already_exists p.role_bindings (grant_key s scc_role_binding) w
              (new_scc_role_binding s g.account g.scc) g.scc_binding g.scc_bound,
          ensure_found p.is_already_exists p.roles (grant_key s metrics_role) w (new_metrics_role s)
              g.metrics g.metrics_exists,
          ensure_found p.is_already_exists p.role_bindings (grant_key s metrics_role_binding) w
              (new_metrics_role_binding s g.metrics) g.metrics_binding g.metrics_bound,
        )
        refl

  grant_all_kept :
      (s : SmbShare) (cfg : OperatorConfig) → Granted p w s → grant_all p s w cfg ≡ go w cfg s
  unfolding grant_all after_attempt
  grant_all_kept s cfg g =
      rw
        (
          namespace_kept s g,
          ensure_found p.is_already_exists p.service_accounts (grant_key s service_account) w
              (new_service_account s) g.account g.account_exists,
          ensure_found p.is_already_exists p.roles (grant_key s scc_role) w (new_scc_role s) g.scc
              g.scc_exists,
        )
        (bind_roles_kept s cfg g)

  typed_kept :
      (s s' : SmbShare) (cfg : OperatorConfig) (b : Bool)
      → s' ≡ (if b then require_annotations_of s else s)
      → (b ≡ true → Granted p w s')
      → typed_steps p s b w cfg ≡ go w cfg s'
  unfolding typed_steps
  typed_kept s s' cfg false is g = rw is refl
  typed_kept s s' cfg true is g =
      let t = require_annotations_of s in
      grant_all_kept t cfg (subst (λ x. Granted p w x) is (g refl)) ∙ ap (λ x. go w cfg x) (sym is)

  pub update_for_openshift_kept :
      (s s' : SmbShare) (cfg cfg' : OperatorConfig)
      → ForOpenShift p w s cfg cfg' s'
      → update_for_openshift p s w cfg ≡ go w cfg' s'
  unfolding update_for_openshift
  update_for_openshift_kept s s' cfg cfg' f =
      subst (λ c. typed_steps p s (c.cluster_type == cluster_type_open_shift) w c ≡ go w cfg' s')
        f.typed
        (typed_kept s s' cfg' (cfg'.cluster_type == cluster_type_open_shift) f.share f.granted)
