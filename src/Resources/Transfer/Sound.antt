-- ===== src/Resources/Transfer/Sound.antt =====
-- Whom an object is handed to, in terms of its owner references.
use samba_operator.Base.{
  String, ◌≡◌, refl, ap, ◌∙◌, ◌≢◌, true, false, Option, some, List, [], ◌∷◌, map, arith, inl, inr,
  Among,
}
use samba_operator.Api.Meta.{ObjectMeta, OwnerReference, NamespacedName}
use samba_operator.Api.SmbShare.{SmbShare}
use samba_operator.Resources.Ownership.{exclude_owner_refs, change_controller_owner_to}
use samba_operator.Resources.Ownership.Laws.{reassign}
use samba_operator.Resources.Ownership.Members.{
  Another, OfShare, exclude_owner_refs-Among, Among-exclude_owner_refs, smb_share_owner_refs-Among,
  Among-smb_share_owner_refs,
}
use samba_operator.Resources.Kube.{Reply}
use samba_operator.Resources.Transfer.{is_controller, has_controller, hand_over, plan_transfer}
use samba_operator.Resources.Transfer.Converges.{Live, plan_transfer-HandOver}

change_controller_owner_to-map :
    (t : OwnerReference) (refs : List OwnerReference)
    → change_controller_owner_to refs t ≡ map (reassign t) refs
unfolding change_controller_owner_to
change_controller_owner_to-map t [] = refl
change_controller_owner_to-map t (r ∷ refs) =
    ap (λ x. reassign t r ∷ x) (change_controller_owner_to-map t refs)

module _ (r : OwnerReference) where
  uncontrolled :
      (refs : List OwnerReference)
      → has_controller refs ≡ false
      → Among r refs
      → r.controller ≢ some true
  unfolding has_controller is_controller
  uncontrolled [] h m e = absurd m
  uncontrolled (x ∷ refs) h (inl same) e =
      let controls : x.controller ≡ some true =
        ap (λ (y : OwnerReference). y.controller) same ∙ e in
      ground (arith, h, controls)
  uncontrolled (x ∷ refs) h (inr m) e = uncontrolled refs (ground (arith, h)) m e

-- The owner that an object is handed to, whose references are `refs'` afterwards.
pub record NewOwner (group_of : String → Option String)
    (get_share : NamespacedName → Reply SmbShare) (obj : ObjectMeta) (previous : SmbShare)
    (refs' : List OwnerReference) : Type 0 where
  pub ref : OwnerReference
  pub listed : Among ref obj.owner_references
  pub of_share : OfShare group_of ref
  pub other : Another previous.metadata.name previous.metadata.uid ref
  pub live : Live get_share obj.namespace ref
  pub free :
      (r : OwnerReference)
      → Among r obj.owner_references
      → OfShare group_of r
      → Another previous.metadata.name previous.metadata.uid r
      → r.controller ≢ some true
  pub result : refs' ≡ map (reassign ref) obj.owner_references

-- An object is handed over only to one of its owners that is a share other than the previous one in
-- name or UID, exists and is not being deleted, and only where no share other than the previous one
-- controls the object. Then the references of the new owner's name and UID are those of a controller
-- that blocks the owner's deletion, no other reference is, and nothing else of them changes.
pub plan_transfer_sound :
    (group_of : String → Option String) (get_share : NamespacedName → Reply SmbShare)
    (obj : ObjectMeta) (previous : SmbShare) (refs' : List OwnerReference)
    → plan_transfer group_of get_share obj previous ≡ hand_over refs'
    → NewOwner group_of get_share obj previous refs'
plan_transfer_sound group_of get_share obj previous refs' h =
    let name = previous.metadata.name in
    let uid = previous.metadata.uid in
    let c = plan_transfer-HandOver group_of get_share obj previous refs' h in
    let (member, other) = exclude_owner_refs-Among c.ref name uid c.refs c.found.member in
    let (listed, is) =
      smb_share_owner_refs-Among group_of c.ref obj.owner_references c.refs c.owners member in
    record {
      ref = c.ref;
      listed = listed;
      of_share = is;
      other = other;
      live = c.found.live;
      free = (λ r owns ours others.
          uncontrolled r (exclude_owner_refs c.refs name uid) c.uncontrolled (
            Among-exclude_owner_refs r name uid c.refs
              (Among-smb_share_owner_refs group_of r obj.owner_references c.refs c.owners ours owns)
              others));
      result = c.result ∙ change_controller_owner_to-map c.ref obj.owner_references;
    }
