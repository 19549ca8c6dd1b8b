-- ===== src/Resources/ServerGroup/Writes.antt =====
-- The group is written once.
use samba_operator.Base.{◌≡◌, refl, inl}
use samba_operator.Api.SmbShare.{SmbShare}
use samba_operator.Resources.Kube.{Client}
use samba_operator.Resources.Once.{Changes}
use samba_operator.Resources.Claims.Writes.{wrote-Changes}
use samba_operator.Resources.ServerGroup.{
  GroupPlan, keep, reject, assign, plan_group, with_group, set_server_group,
}

module _ {W : Type 0} (V : W → W → Type 0) (client : Client W) (w : W)
    (updates : (s : SmbShare) → V w (client.update_share_status w s).0) where
  planned-Changes :
      (s : SmbShare) (plan : GroupPlan)
      → plan_group s ≡ plan
      → Changes V w (set_server_group client w s)
  unfolding set_server_group
  planned-Changes s keep h = rw (h, set_server_group) refl
  planned-Changes s (reject msg) h = rw (h, set_server_group) (inl refl)
  planned-Changes s (assign g) h =
      rw (h, set_server_group)
        (wrote-Changes V w (with_group s g) (client.update_share_status w (with_group s g))
          (updates (with_group s g)))

  pub set_server_group-Changes : (s : SmbShare) → Changes V w (set_server_group client w s)
  set_server_group-Changes s = planned-Changes s (plan_group s) refl
