-- ===== src/Resources/Ownership/Laws.antt =====
-- What the operations on owner references keep.
use samba_operator.Base.{String, ◌≡◌, refl, ◌==◌, Bool, true, false, ◌&&◌, ◌||◌, Option, none, some}
use samba_operator.Base.{List, [], ◌∷◌, arith, if◌then◌else◌}
use samba_operator.Api.Meta.{OwnerReference}
use samba_operator.Resources.Ownership.{
  put_ref, smb_share_owner_refs, exclude_owner_refs, change_controller_owner_to,
}

-- The change of one reference.
abbrev pub reassign : OwnerReference → OwnerReference → OwnerReference
reassign target ref =
    if ref.name == target.name && ref.uid == target.uid
    then record ref { controller = some true; block_owner_deletion = some true }
    else record ref { controller = none; block_owner_deletion = none }

abbrev pub change_found :
    OwnerReference → Option (List OwnerReference) → Option (List OwnerReference)
change_found target none = none
change_found target (some refs) = some (change_controller_owner_to refs target)

put_ref-change :
    (g : Option String) (target ref : OwnerReference) (found : Option (List OwnerReference))
    → put_ref g (reassign target ref) (change_found target found)
      ≡ change_found target (put_ref g ref found)
unfolding put_ref change_controller_owner_to
put_ref-change none target ref found = refl
put_ref-change (some g) target ref none = refl
put_ref-change (some g) target ref (some found) = ground arith

group_of-reassign :
    (group_of : String → Option String) (target ref : OwnerReference)
    → group_of (reassign target ref).api_version ≡ group_of ref.api_version
group_of-reassign group_of target ref = ground arith

pub smb_share_owner_refs-change :
    (group_of : String → Option String) (target : OwnerReference) (refs : List OwnerReference)
    → smb_share_owner_refs group_of (change_controller_owner_to refs target)
      ≡ change_found target (smb_share_owner_refs group_of refs)
unfolding smb_share_owner_refs change_controller_owner_to
smb_share_owner_refs-change group_of target [] = refl
smb_share_owner_refs-change group_of target (ref ∷ refs) =
    rw (smb_share_owner_refs-change group_of target refs) (
      rw (group_of-reassign group_of target ref)
        (put_ref-change (group_of ref.api_version) target ref (smb_share_owner_refs group_of refs)))

pub exclude_owner_refs-change :
    (target : OwnerReference) (refs : List OwnerReference) (name uid : String)
    → exclude_owner_refs (change_controller_owner_to refs target) name uid
      ≡ change_controller_owner_to (exclude_owner_refs refs name uid) target
unfolding exclude_owner_refs change_controller_owner_to
exclude_owner_refs-change target [] name uid = refl
exclude_owner_refs-change target (ref ∷ refs) name uid =
    ground (arith, exclude_owner_refs-change target refs name uid)

-- Whether a reference of this name and UID is listed.
abbrev pub names : OwnerReference → List OwnerReference → Bool
names t [] = false
names t (ref ∷ refs) = (ref.name == t.name && ref.uid == t.uid) || names t refs
