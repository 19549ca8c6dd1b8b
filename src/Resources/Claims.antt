-- ===== src/Resources/Claims.antt =====
-- `claimOwnership` and `addFinalizer`. The group and kind of a share are those that the scheme has
-- registered for it; the lookup in the scheme, which fails for other types only, is left out.
pub mod Once
pub mod Writes
use samba_operator.Base.{String, ◌==◌, Bool, true, false, ◌&&◌, Option, none, some}
use samba_operator.Base.{List, [], ◌∷◌, ◌++◌, if◌then◌else◌}
use samba_operator.Api.Meta.{ObjectMeta, OwnerReference}
use samba_operator.Api.SmbShare.{SmbShare}
use samba_operator.Resources.Ownership.{share_group}
use samba_operator.Resources.Outcome.{Error, failed}
use samba_operator.Resources.Kube.{Api, Client, Runtime}

abbrev pub share_finalizer : String
share_finalizer = "samba-operator.samba.org/shareFinalizer"

-- What the loop over the references finds.
pub data Search : Type 0 where
  present : Search
  absent : Search
  unreadable : Search

search_ref : SmbShare → OwnerReference → Option String → Search → Search
search_ref s ref none rest = unreadable
search_ref s ref (some group) rest =
    if group == share_group && ref.kind == "SmbShare" && s.metadata.name == ref.name
    then present
    else rest

unfoldable pub search_refs : (String → Option String) → SmbShare → List OwnerReference → Search
unfolding search_ref
search_refs group_of s [] = absent
search_refs group_of s (ref ∷ refs) =
    search_ref s ref (group_of ref.api_version) (search_refs group_of s refs)

abbrev pub share_ref : SmbShare → OwnerReference
share_ref s = record {
  api_version = "samba-operator.samba.org/v1alpha1";
  kind = "SmbShare";
  name = s.metadata.name;
  uid = s.metadata.uid;
  controller = none;
  block_owner_deletion = none;
}

claim_found : SmbShare → List OwnerReference → Search → Option (Option (List OwnerReference))
claim_found s refs unreadable = none
claim_found s refs present = some none
claim_found s refs absent = some (some (refs ++ share_ref s ∷ []))

-- The references with the share among them; none within where it is there already, and none at all
-- where a version does not parse.
unfoldable pub claimed :
    (String → Option String)
    → SmbShare
    → List OwnerReference
    → Option (Option (List OwnerReference))
unfolding search_refs claim_found
claimed group_of s refs = claim_found s refs (search_refs group_of s refs)

module _ {W A : Type 0} (update : W → A → W × Option Error) (owners : A → List OwnerReference)
    (set_owners : A → List OwnerReference → A) where
  claim_with : W → A → Option (Option (List OwnerReference)) → W × A × Bool × Option Error
  claim_with w obj none = (w, obj, false, some (failed "unable to parse an API version"))
  claim_with w obj (some none) = (w, obj, false, none)
  claim_with w obj (some (some refs)) =
      let (w', err) = update w (set_owners obj refs) in (w', set_owners obj refs, true, err)

  -- The world, the object as it is in memory afterwards, whether it changed, and the error.
  unfoldable pub claim_ownership :
      (String → Option String) → W → SmbShare → A → W × A × Bool × Option Error
  unfolding claim_with claimed
  claim_ownership group_of w s obj = claim_with w obj (claimed group_of s (owners obj))

module _ {W : Type 0} (runtime : Runtime) (client : Client W) where
  unfoldable pub add_finalizer : W → SmbShare → W × SmbShare × Bool × Option Error
  add_finalizer w s =
      let s' = runtime.add_finalizer s share_finalizer in
      let (w', err) = client.shares.update w s' in
      if runtime.contains_finalizer s share_finalizer
      then (w, s, false, none)
      else (w', s', true, err)
