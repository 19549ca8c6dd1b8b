-- ===== src/Resources/Claims/Once.antt =====
-- A share claims an object once.
use samba_operator.Base.{String, ◌≡◌, refl, eq_refl, false, Option, none, some, arith}
use samba_operator.Base.{List, [], ◌∷◌, ◌++◌}
use samba_operator.Api.Meta.{OwnerReference}
use samba_operator.Api.SmbShare.{SmbShare}
use samba_operator.Resources.Outcome.{Error}
use samba_operator.Resources.Ownership.{share_group}
use samba_operator.Resources.Claims.{
  Search, present, absent, search_ref, search_refs, share_ref, claimed, claim_with, claim_ownership,
}

-- `schema.ParseGroupVersion` reads our own API version.
abbrev pub ReadsOurs : (String → Option String) → Type 0
ReadsOurs group_of = group_of "samba-operator.samba.org/v1alpha1" ≡ some share_group

search-share_ref :
    (group_of : String → Option String) (s : SmbShare)
    → ReadsOurs group_of
    → search_refs group_of s (share_ref s ∷ []) ≡ present
unfolding search_refs search_ref
search-share_ref group_of s h = rw h (ground (arith, eq_refl s.metadata.name))

search_one-append :
    (s : SmbShare) (ref : OwnerReference) (g : Option String) (before after : Search)
    → (before ≡ absent → after ≡ present)
    → search_ref s ref g before ≡ absent
    → search_ref s ref g after ≡ present
unfolding search_ref
search_one-append s ref none before after ih h = cc
search_one-append s ref (some g) before after ih h = ground (arith, ih)

search-append :
    (group_of : String → Option String) (s : SmbShare) (refs : List OwnerReference)
    → ReadsOurs group_of
    → search_refs group_of s refs ≡ absent
    → search_refs group_of s (refs ++ share_ref s ∷ []) ≡ present
unfolding search_refs
search-append group_of s [] r h = search-share_ref group_of s r
search-append group_of s (ref ∷ refs) r h =
    search_one-append s ref (group_of ref.api_version) (search_refs group_of s refs)
      (search_refs group_of s (refs ++ share_ref s ∷ [])) (search-append group_of s refs r) h

claimed-cases :
    (group_of : String → Option String) (s : SmbShare) (refs refs' : List OwnerReference)
    → claimed group_of s refs ≡ some (some refs')
    → (search_refs group_of s refs ≡ absent) × (refs' ≡ refs ++ share_ref s ∷ [])
unfolding claimed
claimed-cases group_of s refs refs' h = ground arith

claimed-present :
    (group_of : String → Option String) (s : SmbShare) (refs : List OwnerReference)
    → search_refs group_of s refs ≡ present
    → claimed group_of s refs ≡ some none
unfolding claimed
claimed-present group_of s refs h = rw h refl

-- Where a claim adds the share to the owners of an object, the owners are those that it had and
-- the share after them, and the next claim leaves the object as it is.
pub claimed_converges :
    (group_of : String → Option String) (s : SmbShare) (refs refs' : List OwnerReference)
    → ReadsOurs group_of
    → claimed group_of s refs ≡ some (some refs')
    → (refs' ≡ refs ++ share_ref s ∷ []) × (claimed group_of s refs' ≡ some none)
claimed_converges group_of s refs refs' r h =
    let (missing, same) = claimed-cases group_of s refs refs' h in
    (same, rw same (claimed-present group_of s _ (search-append group_of s refs r missing)))

module _ {W A : Type 0} (update : W → A → W × Option Error) (owners : A → List OwnerReference)
    (set_owners : A → List OwnerReference → A) where
  claim_with-unchanged :
      (w w' : W) (obj obj' : A) (c : Option (Option (List OwnerReference)))
      → claim_with update owners set_owners w obj c ≡ (w', obj', false, none)
      → (w' ≡ w) × (obj' ≡ obj) × (c ≡ some none)
  unfolding claim_with
  claim_with-unchanged w w' obj obj' none h = cc
  claim_with-unchanged w w' obj obj' (some none) h = (cc, cc, refl)
  claim_with-unchanged w w' obj obj' (some (some refs)) h = cc

  -- A claim that reports neither a change nor an error found the share among the owners, and
  -- wrote nothing.
  pub claim_ownership_unchanged :
      (group_of : String → Option String) (w w' : W) (s : SmbShare) (obj obj' : A)
      → claim_ownership update owners set_owners group_of w s obj ≡ (w', obj', false, none)
      → (w' ≡ w) × (obj' ≡ obj) × (claimed group_of s (owners obj) ≡ some none)
  unfolding claim_ownership
  claim_ownership_unchanged group_of w w' s obj obj' h =
      claim_with-unchanged w w' obj obj' (claimed group_of s (owners obj)) h

  -- A claim of an object that the share owns already changes nothing.
  pub claim_ownership_owned :
      (group_of : String → Option String) (w : W) (s : SmbShare) (obj : A)
      → claimed group_of s (owners obj) ≡ some none
      → claim_ownership update owners set_owners group_of w s obj ≡ (w, obj, false, none)
  unfolding claim_ownership claim_with
  claim_ownership_owned group_of w s obj h = rw h refl
