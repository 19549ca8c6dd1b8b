-- ===== src/Resources/ServerGroup.antt =====
-- `setServerGroup`. The events that it records are left out; their texts are the errors'.
pub mod Assigned
pub mod Writes
use samba_operator.Base.{
  String, ◌==◌, ◌!=◌, Bool, true, false, ◌||◌, Option, none, some, if◌then◌else◌,
}
use samba_operator.Api.SmbShare.{SmbShare, SmbShareStatus}
use samba_operator.Planner.Properties.{group_mode_never, group_mode_explicit, group_mode_unset}
use samba_operator.Resources.Outcome.{Error, failed}
use samba_operator.Resources.Kube.{Client}

-- What is to be done about the group.
pub data GroupPlan : Type 0 where
  keep : GroupPlan
  assign : String → GroupPlan
  reject : String → GroupPlan

-- The mode and the group that the scaling settings ask for.
abbrev pub requested : SmbShare → String × String
requested s = elim s.spec.scaling [
  | none ↦ (group_mode_never, "")
  | some scaling ↦ (scaling.group_mode, scaling.group)
]

plan_request : String → String × String → GroupPlan
plan_request name (mode, group) =
    if mode == group_mode_never || mode == group_mode_unset
    then if group != ""
      then reject "a group name may not be specified when groupMode is 'never'"
      else assign name
    else if mode == group_mode_explicit
    then if group == ""
      then reject "a group name is required when groupMode is 'explicit'"
      else assign group
    else reject "invalid group mode"

unfoldable pub plan_group : SmbShare → GroupPlan
unfolding plan_request
plan_group s =
    if s.status.server_group != "" then keep else plan_request s.metadata.name (requested s)

abbrev pub with_group : SmbShare → String → SmbShare
with_group s g = record s { status = record { server_group = g } }

module _ {W : Type 0} (client : Client W) where
  -- The world, the share as it is in memory afterwards, whether it changed, and the error.
  unfoldable pub set_server_group : W → SmbShare → W × SmbShare × Bool × Option Error
  unfolding plan_group
  set_server_group w s = elim (plan_group s) [
    | keep ↦ (w, s, false, none)
    | reject msg ↦ (w, s, false, some (failed msg))
    | assign g ↦
        let (w', err) = client.update_share_status w (with_group s g) in
        (w', with_group s g, true, err)
  ]
