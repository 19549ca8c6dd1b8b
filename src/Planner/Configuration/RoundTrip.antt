-- ===== src/Planner/Configuration/RoundTrip.antt =====
-- `Prune` after the `Update` that brought a share in.
use samba_operator.Base.{◌≡◌, refl, ap, ◌∙◌, ◌≢◌, eq_iff, eq_refl, false}
use samba_operator.Base.{Option, none, some, List, [], ◌∷◌, ◌++◌, arith, contains}
use samba_operator.Base.Dict.{lookup}
use samba_operator.Base.Panics.{returns}
use samba_operator.Smbcc.{SambaContainerConfig, ConfigSection, Key}
use samba_operator.Planner.Instance.{Planner}
use samba_operator.Planner.Configuration.{update, prune, share_name, instance_id, Change, take_out}
use samba_operator.Planner.Configuration.Section.{listed}
use samba_operator.Planner.Configuration.Frame.{update_keeps_shares, update_listing}
use samba_operator.Planner.Configuration.Prune.{
  shares_of, shares_of-without, lists, prune_shares, prune_own_section,
}

take_out-append :
    (k : Key) (xs : List Key) → contains xs k ≡ false → (take_out k (xs ++ k ∷ [])).0 ≡ xs
unfolding take_out
take_out-append k [] h = ground (arith, eq_refl k)
take_out-append k (x ∷ xs) h = ground (arith, take_out-append k xs (ground arith))

take_out-listed :
    (k : Key) (o : Option ConfigSection)
    → lists k o ≡ false
    → (take_out k (listed k o)).0 ≡ shares_of o
take_out-listed k none h = take_out-append k [] refl
take_out-listed k (some cfg) h = ground (arith, take_out-append k cfg.shares)

module _ (pl : Planner) (s : SambaContainerConfig) where
  listing_back :
      (r : Change)
      → lists (share_name pl) (lookup (instance_id pl) s.configs) ≡ false
      → update pl s ≡ returns r
      → shares_of (lookup (instance_id pl) (prune pl r.1).1.configs)
        ≡ shares_of (lookup (instance_id pl) s.configs)
  listing_back r fresh h =
      let (cfg, found, e) = update_listing pl s r h in
      ap shares_of (prune_own_section pl r.1)
      ∙ shares_of-without (share_name pl) (lookup (instance_id pl) r.1.configs)
      ∙ ap (λ xs. (take_out (share_name pl) xs).0) (ap shares_of found ∙ e)
      ∙ take_out-listed (share_name pl) (lookup (instance_id pl) s.configs) fresh

  shares_back :
      (r : Change) (k : Key)
      → lookup (share_name pl) s.shares ≡ none
      → update pl s ≡ returns r
      → lookup k (prune pl r.1).1.shares ≡ lookup k s.shares
  shares_back r k fresh h =
      let kept : k ≢ share_name pl → lookup k r.1.shares ≡ lookup k s.shares =
        λ other. update_keeps_shares pl s r k other h in
      prune_shares pl r.1 k ∙ ground (arith, eq_iff (share_name pl) k, kept)

-- Where a share has no section and is not listed, `Prune` after an `Update` that returned gives
-- the sections of all shares and the listing of the instance back.
pub prune-update :
    (pl : Planner) (s : SambaContainerConfig) (r : Change)
    → lookup (share_name pl) s.shares ≡ none
    → lists (share_name pl) (lookup (instance_id pl) s.configs) ≡ false
    → update pl s ≡ returns r
    → ((k : Key) → lookup k (prune pl r.1).1.shares ≡ lookup k s.shares)
      × (shares_of (lookup (instance_id pl) (prune pl r.1).1.configs)
          ≡ shares_of (lookup (instance_id pl) s.configs))
prune-update pl s r new_share new_entry h =
    ((λ k. shares_back pl s r k new_share h), listing_back pl s r new_entry h)
