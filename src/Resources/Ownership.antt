-- ===== src/Resources/Ownership.antt =====
-- internal/resources/ownership.go. `schema.ParseGroupVersion` is an argument: the group of an API
-- version, or none where it does not parse.
pub mod Laws
pub mod Members
use samba_operator.Base.{String, ◌==◌, ◌!=◌, Bool, true, false, ◌&&◌, ◌||◌, Option, none, some}
use samba_operator.Base.{List, [], ◌∷◌, map, if◌then◌else◌}
use samba_operator.Api.Meta.{ObjectMeta, OwnerReference, NamespacedName}
use samba_operator.Api.SmbShare.{SmbShare}

-- api/v1alpha1.GroupVersion
abbrev pub share_group : String
share_group = "samba-operator.samba.org"

-- A reference of our group and kind is put in front of those that follow it. An error ends the loop.
put_ref :
    Option String → OwnerReference → Option (List OwnerReference) → Option (List OwnerReference)
put_ref none ref found = none
put_ref (some group) ref none = none
put_ref (some group) ref (some found) =
    some (if group == share_group && ref.kind == "SmbShare" then ref ∷ found else found)

-- The references to shares; none is the error of a version that does not parse.
unfoldable pub smb_share_owner_refs :
    (String → Option String) → List OwnerReference → Option (List OwnerReference)
unfolding put_ref
smb_share_owner_refs group_of [] = some []
smb_share_owner_refs group_of (ref ∷ refs) =
    put_ref (group_of ref.api_version) ref (smb_share_owner_refs group_of refs)

unfoldable pub owner_refs_to_names : List OwnerReference → String → List NamespacedName
owner_refs_to_names [] ns = []
owner_refs_to_names (ref ∷ refs) ns =
    record { namespace = ns; name = ref.name } ∷ owner_refs_to_names refs ns

unfoldable pub exclude_owner_refs : List OwnerReference → String → String → List OwnerReference
exclude_owner_refs [] name uid = []
exclude_owner_refs (ref ∷ refs) name uid =
    let out = exclude_owner_refs refs name uid in
    if ref.name != name || ref.uid != uid then ref ∷ out else out

unfoldable pub owner_shares_excluding :
    (String → Option String) → List OwnerReference → SmbShare → Option (List NamespacedName)
unfolding smb_share_owner_refs owner_refs_to_names exclude_owner_refs
owner_shares_excluding group_of refs s = elim (smb_share_owner_refs group_of refs) [
  | none ↦ none
  | some found ↦ some (
      owner_refs_to_names (exclude_owner_refs found s.metadata.name s.metadata.uid)
        s.metadata.namespace)
]

-- The loop over the references: the target becomes the controller, and no other is.
unfoldable pub change_controller_owner_to :
    List OwnerReference → OwnerReference → List OwnerReference
change_controller_owner_to [] target = []
change_controller_owner_to (ref ∷ refs) target =
    (if ref.name == target.name && ref.uid == target.uid
      then record ref { controller = some true; block_owner_deletion = some true }
      else record ref { controller = none; block_owner_deletion = none })
    ∷ change_controller_owner_to refs target
