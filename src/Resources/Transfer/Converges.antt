-- ===== src/Resources/Transfer/Converges.antt =====
-- Whom an object is handed to, and that it is handed over once.
use samba_operator.Base.{String, ◌≡◌, refl, subst, ◌∙◌, eq_refl, true, false, Option, none, some}
use samba_operator.Base.{List, [], ◌∷◌, arith, Option-cases, inl, inr, Among}
use samba_operator.Api.Meta.{ObjectMeta, OwnerReference, NamespacedName}
use samba_operator.Api.SmbShare.{SmbShare}
use samba_operator.Resources.Outcome.{not_found, failed}
use samba_operator.Resources.Ownership.{
  smb_share_owner_refs, exclude_owner_refs, change_controller_owner_to,
}
use samba_operator.Resources.Ownership.Laws.{
  names, smb_share_owner_refs-change, exclude_owner_refs-change,
}
use samba_operator.Resources.Kube.{Reply, got, refused}
use samba_operator.Resources.Transfer.{
  has_controller, Choice, chosen, nobody, broken, choose, choose_one, leave, hand_over, plan_choice,
  plan_refs, plan_transfer,
}

-- The share of a reference exists and is not being deleted.
pub record Live (get_share : NamespacedName → Reply SmbShare) (ns : String) (ref : OwnerReference)
    : Type 0 where
  pub share : SmbShare
  pub exists : get_share (record { namespace = ns; name = ref.name }) ≡ got share
  pub alive : share.metadata.deletion_timestamp ≡ none

-- Who was chosen, out of these references.
pub record Chosen (get_share : NamespacedName → Reply SmbShare) (ns : String)
    (refs : List OwnerReference) (ref : OwnerReference) : Type 0 where
  pub live : Live get_share ns ref
  pub listed : names ref refs ≡ true
  pub member : Among ref refs

module _ (get_share : NamespacedName → Reply SmbShare) (ns : String) where
  later :
      (r ref : OwnerReference) (refs : List OwnerReference)
      → Chosen get_share ns refs ref
      → Chosen get_share ns (r ∷ refs) ref
  later r ref refs c = record {
    live = c.live;
    listed = ground (arith, c.listed);
    member = inr c.member;
  }

  one_sound :
      (r : OwnerReference) (reply : Reply SmbShare) (refs : List OwnerReference)
      (ref : OwnerReference) (rest : Choice)
      → get_share (record { namespace = ns; name = r.name }) ≡ reply
      → (rest ≡ chosen ref → Chosen get_share ns refs ref)
      → choose_one r reply rest ≡ chosen ref
      → Chosen get_share ns (r ∷ refs) ref
  unfolding choose_one
  one_sound r (refused not_found) refs ref rest e ih h = later r ref refs (ih h)
  one_sound r (refused (failed err)) refs ref rest e ih h = cc
  one_sound r (got s) refs ref rest e ih h = elim (Option-cases s.metadata.deletion_timestamp) [
    | inl alive ↦
        let same : r ≡ ref = ground (arith, h) in
        subst (Chosen get_share ns (r ∷ refs)) same (record {
          live = record { share = s; exists = e; alive = alive };
          listed = ground (arith, eq_refl r.name, eq_refl r.uid);
          member = inl refl;
        })
    | inr (t, going) ↦ later r ref refs (ih (ground (arith, h)))
  ]

  pub choose_sound :
      (refs : List OwnerReference) (ref : OwnerReference)
      → choose get_share ns refs ≡ chosen ref
      → Chosen get_share ns refs ref
  unfolding choose
  choose_sound [] ref h = cc
  choose_sound (r ∷ refs) ref h =
      one_sound r (get_share (record { namespace = ns; name = r.name })) refs ref
        (choose get_share ns refs) refl (choose_sound refs ref) h

-- What the code went through where it hands an object over.
pub record HandOver (group_of : String → Option String)
    (get_share : NamespacedName → Reply SmbShare) (obj : ObjectMeta) (previous : SmbShare)
    (refs' : List OwnerReference) : Type 0 where
  pub refs : List OwnerReference
  pub owners : smb_share_owner_refs group_of obj.owner_references ≡ some refs
  pub uncontrolled :
      has_controller (exclude_owner_refs refs previous.metadata.name previous.metadata.uid) ≡ false
  pub ref : OwnerReference
  pub found :
      Chosen get_share obj.namespace
        (exclude_owner_refs refs previous.metadata.name previous.metadata.uid)
        ref
  pub result : refs' ≡ change_controller_owner_to obj.owner_references ref

module _ (group_of : String → Option String) (get_share : NamespacedName → Reply SmbShare)
    (obj : ObjectMeta) (previous : SmbShare) where
  from_choice :
      (all : List OwnerReference) (c : Choice) (refs' : List OwnerReference)
      → plan_choice all c ≡ hand_over refs'
      → (ref : OwnerReference) × (c ≡ chosen ref) × (refs' ≡ change_controller_owner_to all ref)
  unfolding plan_choice
  from_choice all nobody refs' h = cc
  from_choice all (broken e) refs' h = cc
  from_choice all (chosen ref) refs' h = (ref, refl, ground (arith, h))

  from_refs :
      (o : Option (List OwnerReference)) (refs' : List OwnerReference)
      → smb_share_owner_refs group_of obj.owner_references ≡ o
      → plan_refs get_share obj previous o ≡ hand_over refs'
      → HandOver group_of get_share obj previous refs'
  unfolding plan_refs
  from_refs none refs' e h = cc
  from_refs (some refs) refs' e h =
      let others = exclude_owner_refs refs previous.metadata.name previous.metadata.uid in
      let free : has_controller others ≡ false = ground (arith, h) in
      let (ref, choice, result) =
        from_choice obj.owner_references (choose get_share obj.namespace others) refs'
          (ground (arith, h)) in
      record {
        refs = refs;
        owners = e;
        uncontrolled = free;
        ref = ref;
        found = choose_sound get_share obj.namespace others ref choice;
        result = result;
      }

  pub plan_transfer-HandOver :
      (refs' : List OwnerReference)
      → plan_transfer group_of get_share obj previous ≡ hand_over refs'
      → HandOver group_of get_share obj previous refs'
  unfolding plan_transfer
  plan_transfer-HandOver refs' h =
      from_refs (smb_share_owner_refs group_of obj.owner_references) refs' refl h

has_controller-change :
    (t : OwnerReference) (refs : List OwnerReference)
    → has_controller (change_controller_owner_to refs t) ≡ names t refs
unfolding has_controller change_controller_owner_to
has_controller-change t [] = refl
has_controller-change t (r ∷ refs) = ground (arith, has_controller-change t refs)

-- Once an object is handed over, later calls leave it as it is, whatever the cluster is by then.
pub plan_transfer_converges :
    (group_of : String → Option String) (get_share get_share' : NamespacedName → Reply SmbShare)
    (obj : ObjectMeta) (previous : SmbShare) (refs' : List OwnerReference)
    → plan_transfer group_of get_share obj previous ≡ hand_over refs'
    → plan_transfer group_of get_share' (record obj { owner_references = refs' }) previous ≡ leave
unfolding plan_transfer plan_refs
plan_transfer_converges group_of get_share get_share' obj previous refs' h =
    let c = plan_transfer-HandOver group_of get_share obj previous refs' h in
    let others = exclude_owner_refs c.refs previous.metadata.name previous.metadata.uid in
    let controlled : has_controller (change_controller_owner_to others c.ref) ≡ true =
      has_controller-change c.ref others ∙ c.found.listed in
    rw c.result (
      rw (smb_share_owner_refs-change group_of c.ref obj.owner_references) (
        rw c.owners (
          rw (exclude_owner_refs-change c.ref c.refs previous.metadata.name previous.metadata.uid)
            (rw controlled refl))))
