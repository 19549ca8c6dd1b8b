-- ===== src/Resources/Transfer.antt =====
-- `transferOwnership`: a share that is about to go hands its objects over.
pub mod Converges
pub mod Sound
pub mod Kept
pub mod Writes
use samba_operator.Base.{String, ◌==◌, ◌!=◌, Bool, true, false, ◌||◌, Option, none, some}
use samba_operator.Base.{List, [], ◌∷◌, if◌then◌else◌}
use samba_operator.Api.Meta.{ObjectMeta, OwnerReference, NamespacedName}
use samba_operator.Api.SmbShare.{SmbShare}
use samba_operator.Resources.Outcome.{Error, not_found, failed, Result, done, requeued, stopped}
use samba_operator.Resources.Ownership.{
  smb_share_owner_refs, exclude_owner_refs, change_controller_owner_to,
}
use samba_operator.Resources.Kube.{Reply, got, refused}

is_controller : OwnerReference → Bool
is_controller ref = elim ref.controller [ none ↦ false | some b ↦ b ]

unfoldable pub has_controller : List OwnerReference → Bool
unfolding is_controller
has_controller [] = false
has_controller (ref ∷ refs) = is_controller ref || has_controller refs

-- What the search for a new owner ends with.
pub data Choice : Type 0 where
  chosen : OwnerReference → Choice
  nobody : Choice
  broken : Error → Choice

-- One round: the share that the reference names is looked up.
choose_one : OwnerReference → Reply SmbShare → Choice → Choice
choose_one ref (refused not_found) rest = rest
choose_one ref (refused (failed e)) rest = broken (failed e)
choose_one ref (got s) rest = elim s.metadata.deletion_timestamp [
  | none ↦ chosen ref
  | some t ↦ rest
]

module _ (get_share : NamespacedName → Reply SmbShare) where
  unfoldable pub choose : String → List OwnerReference → Choice
  unfolding choose_one
  choose ns [] = nobody
  choose ns (ref ∷ refs) =
      choose_one ref (get_share (record { namespace = ns; name = ref.name })) (choose ns refs)

-- What is to be done about the object: nothing, give it these references, or stop at an error.
pub data Plan : Type 0 where
  leave : Plan
  hand_over : List OwnerReference → Plan
  give_up : Error → Plan

plan_choice : List OwnerReference → Choice → Plan
unfolding change_controller_owner_to
plan_choice all nobody = leave
plan_choice all (broken e) = give_up e
plan_choice all (chosen ref) =
    if ref.name == "" then leave else hand_over (change_controller_owner_to all ref)

plan_refs :
    (NamespacedName → Reply SmbShare) → ObjectMeta → SmbShare → Option (List OwnerReference) → Plan
unfolding exclude_owner_refs has_controller choose plan_choice
plan_refs get_share obj previous none = give_up (failed "unable to parse an API version")
plan_refs get_share obj previous (some refs) =
    let others = exclude_owner_refs refs previous.metadata.name previous.metadata.uid in
    if has_controller others
    then leave
    else plan_choice obj.owner_references (choose get_share obj.namespace others)

unfoldable pub plan_transfer :
    (String → Option String) → (NamespacedName → Reply SmbShare) → ObjectMeta → SmbShare → Plan
unfolding smb_share_owner_refs plan_refs
plan_transfer group_of get_share obj previous =
    plan_refs get_share obj previous (smb_share_owner_refs group_of obj.owner_references)

write_result : Option Error → Result
write_result none = requeued
write_result (some e) = stopped e

module _ {W A : Type 0} (update : W → A → W × Option Error)
    (set_owners : A → List OwnerReference → A) where
  unfoldable pub run_plan : W → A → Plan → W × Result
  unfolding write_result
  run_plan w obj leave = (w, done)
  run_plan w obj (give_up e) = (w, stopped e)
  run_plan w obj (hand_over refs) =
      let (w', err) = update w (set_owners obj refs) in (w', write_result err)
