-- ===== src/Resources/ServerGroup/Assigned.antt =====
-- Which group a share is assigned to.
use samba_operator.Base.{String, ◌≡◌, refl, ◌≢◌, ◌⊎◌, ◌↔◌, eq_iff, arith}
use samba_operator.Base.{ne_of_eq-false}
use samba_operator.Api.SmbShare.{SmbShare}
use samba_operator.Planner.Properties.{group_mode_never, group_mode_explicit, group_mode_unset}
use samba_operator.Resources.ServerGroup.{assign, requested, plan_request, plan_group}

-- The group that the settings stand for, if they are in order.
abbrev pub Assigned : String → String × String → String → Type 0
Assigned name (mode, group) g =
    (((mode ≡ group_mode_never) ⊎ (mode ≡ group_mode_unset)) × (group ≡ "") × (g ≡ name))
    ⊎ ((mode ≡ group_mode_explicit) × (group ≢ "") × (g ≡ group))

explicit_ne_never : group_mode_explicit ≢ group_mode_never
explicit_ne_never = ne_of_eq-false group_mode_explicit group_mode_never refl

explicit_ne_unset : group_mode_explicit ≢ group_mode_unset
explicit_ne_unset = ne_of_eq-false group_mode_explicit group_mode_unset refl

plan_request_assigns :
    (name mode group g : String)
    → (plan_request name (mode, group) ≡ assign g) ↔ Assigned name (mode, group) g
unfolding plan_request
plan_request_assigns name mode group g = ground (
  arith,
  eq_iff mode group_mode_never,
  eq_iff mode group_mode_unset,
  eq_iff mode group_mode_explicit,
  eq_iff group "",
  explicit_ne_never,
  explicit_ne_unset,
)

-- A share without a group is assigned to its own name where its group mode is "never" or unset and
-- it names no group, to the group that it names where the mode is "explicit", and to none else.
pub plan_group_assigns :
    (s : SmbShare) (g : String)
    → s.status.server_group ≡ ""
    → (plan_group s ≡ assign g) ↔ Assigned s.metadata.name (requested s) g
unfolding plan_group
plan_group_assigns s g h =
    let p = plan_request_assigns s.metadata.name (requested s).0 (requested s).1 g in
    ground (arith, p, eq_iff s.status.server_group "")
