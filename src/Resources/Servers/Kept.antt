-- ===== src/Resources/Servers/Kept.antt =====
-- Where what runs a server is as it should be, the steps for it write nothing.
use samba_operator.Base.{◌≡◌, refl}
use samba_operator.Api.SmbShare.{SmbShare}
use samba_operator.Conf.{OperatorConfig}
use samba_operator.Planner.Instance.{Planner}
use samba_operator.Resources.Claims.Once.{claim_ownership_owned}
use samba_operator.Resources.Sizes.{update_deployment_size}
use samba_operator.Resources.Sizes.Grows.{settled}
use samba_operator.Resources.Platform.{Platform}
use samba_operator.Resources.Step.{go, after_change, after_attempt}
use samba_operator.Resources.Getters.Kept.{
  get_or_create_deployment_found, get_or_create_stateful_set_found, get_or_create_service_found,
  get_or_create_pvc_found, get_or_create_state_pvc_found,
}
use samba_operator.Resources.Servers.{
  workload_owners, set_workload_owners, service_owners, set_service_owners, update_pvc,
  clustered_steps, sized_to, update_clustered_state, update_non_clustered_state, update_smb_service,
}
use samba_operator.Resources.Servers.Running.{Clustered, Standing, Served, Stored}

module _ {W : Type 0} (p : Platform W) (cfg : OperatorConfig) (w : W) where
  pub update_non_clustered_state_kept :
      (pl : Planner) → Standing p w pl → update_non_clustered_state p pl w cfg ≡ go w cfg tt
  unfolding update_non_clustered_state after_attempt after_change update_deployment_size
  update_non_clustered_state_kept pl st =
      rw
        (
          get_or_create_deployment_found p cfg w pl pl.smb_share.metadata.namespace st.deployment
              st.exists,
          claim_ownership_owned p.deployments.update workload_owners set_workload_owners
              p.runtime.group_of w pl.smb_share st.deployment st.owned,
          st.one,
        )
        refl

  pub update_clustered_state_kept :
      (pl : Planner) → Clustered p w pl → update_clustered_state p pl w cfg ≡ go w cfg tt
  unfolding update_clustered_state clustered_steps after_attempt after_change sized_to
  update_clustered_state_kept pl st =
      rw
        (
          st.supported,
          get_or_create_state_pvc_found p cfg w pl pl.smb_share.metadata.namespace st.state
              st.state_exists,
          get_or_create_stateful_set_found p cfg w pl pl.smb_share.metadata.namespace st.set
              st.exists,
          claim_ownership_owned p.stateful_sets.update workload_owners set_workload_owners
              p.runtime.group_of w pl.smb_share st.set st.owned,
          st.asked,
          settled p.stateful_sets.update w st.set st.size st.replicas st.has st.enough,
        )
        refl

  pub update_smb_service_kept :
      (pl : Planner) → Served p w pl → update_smb_service p pl w cfg ≡ go w cfg tt
  unfolding update_smb_service after_attempt after_change
  update_smb_service_kept pl st =
      rw
        (
          get_or_create_service_found p cfg w pl pl.smb_share.metadata.namespace st.service
              st.exists,
          claim_ownership_owned p.services.update service_owners set_service_owners
              p.runtime.group_of w pl.smb_share st.service st.owned,
        )
        refl

  pub update_pvc_kept : (s s' : SmbShare) → Stored p w s s' → update_pvc p s w cfg ≡ go w cfg s'
  unfolding update_pvc after_attempt
  update_pvc_kept s s' (d, has, named) =
      rw (get_or_create_pvc_found p cfg w s s.metadata.namespace d has, named) refl
