-- ===== src/Planner/Configuration/Faults.antt =====
-- When `Update` dereferences a nil pointer.
use samba_operator.Base.{◌≡◌, ap, ◌≢◌, ◌↔◌, ◌==◌, eq_iff, Bool}
use samba_operator.Base.{Option, none, some, arith, Bool-cases, inl, inr}
use samba_operator.Base.Dict.{lookup}
use samba_operator.Base.Panics.{panics, >>=-ne-panics, Run-cases}
use samba_operator.Smbcc.{SambaContainerConfig, ConfigSection, ShareConfig}
use samba_operator.Planner.Instance.{Planner}
use samba_operator.Planner.Properties.{ad_mode, security_mode, realm}
use samba_operator.Planner.Paths
use samba_operator.Planner.Configuration.{
  add_globals, find_share, share_or_new, new_section, section_or_new, find_section, update_section,
  add_users, add_realm, update, share_name, instance_id,
}
use samba_operator.Planner.Configuration.Steps.{add_globals_frame}
use samba_operator.Planner.Configuration.UpdateSteps.{after_share, changed_before}
use samba_operator.Planner.Configuration.Realm.{realm_of_ad, add_realm_total}

module _ (pl : Planner) where
  realm-ne-panics : security_mode pl ≡ ad_mode → realm pl ≢ panics
  realm-ne-panics ad h = let (c, _, e) = realm_of_ad pl ad in cc (e, h)

  new_section-ne-panics : new_section pl ≢ panics
  new_section-ne-panics = elim (Bool-cases (security_mode pl == ad_mode)) [
    | inl same ↦
        unfold new_section in
        rw same (
          >>=-ne-panics (realm pl) _ (realm-ne-panics ((eq_iff (security_mode pl) ad_mode).0 same))
            (λ r e. cc e))
    | inr other ↦ unfold new_section in rw other (λ e. cc e)
  ]

  section_or_new-ne-panics : (o : Option ConfigSection) → section_or_new pl o ≢ panics
  unfolding section_or_new
  section_or_new-ne-panics none =
      >>=-ne-panics (new_section pl) _ new_section-ne-panics (λ c e. cc e)
  section_or_new-ne-panics (some c) = λ e. cc e

  share_panics_iff : (Paths.share pl ≡ panics) ↔ (pl.smb_share.spec.storage.pvc ≡ none)
  unfolding Paths.share
  share_panics_iff = ground arith

  share_or_new_panics_iff :
      (o : Option ShareConfig)
      → (share_or_new pl o ≡ panics) ↔ ((o ≡ none) × (pl.smb_share.spec.storage.pvc ≡ none))
  unfolding share_or_new
  share_or_new_panics_iff none = ground (arith, share_panics_iff)
  share_or_new_panics_iff (some share) = ground arith

  update_section-ne-panics : (c : Bool) (s : SambaContainerConfig) → update_section pl c s ≢ panics
  unfolding update_section
  update_section-ne-panics c s =
      >>=-ne-panics (find_section pl s) _
        (unfold find_section in section_or_new-ne-panics (lookup (instance_id pl) s.configs))
        (λ f e. cc e)

  add_realm-ne-panics : (s : SambaContainerConfig) → add_realm pl s ≢ panics
  add_realm-ne-panics s h = let (r, e) = add_realm_total pl s in cc (e, h)

  update_returns :
      (s : SambaContainerConfig)
      → find_share pl (add_globals pl s).1 ≢ panics
      → update pl s ≢ panics
  unfolding update
  update_returns s h = >>=-ne-panics (find_share pl (add_globals pl s).1) _ h λ found.
      >>=-ne-panics
        (update_section pl (changed_before pl s found.0 found.1) (after_share pl s found.1)) _
        (update_section-ne-panics _ _)
        (λ stored.
          >>=-ne-panics (add_realm pl (add_users stored.1).1) _ (add_realm-ne-panics _)
            (λ r e. cc e))

  find_share_panics_iff :
      (s : SambaContainerConfig)
      → (find_share pl (add_globals pl s).1 ≡ panics)
        ↔ ((lookup (share_name pl) s.shares ≡ none) × (pl.smb_share.spec.storage.pvc ≡ none))
  find_share_panics_iff s =
      let kept : (add_globals pl s).1.shares ≡ s.shares =
        ap (λ (t : SambaContainerConfig). t.shares) (add_globals_frame pl s) in
      unfold find_share in rw kept (share_or_new_panics_iff (lookup (share_name pl) s.shares))

  update_of_find_share_panics :
      (s : SambaContainerConfig)
      → find_share pl (add_globals pl s).1 ≡ panics
      → update pl s ≡ panics
  unfolding update
  update_of_find_share_panics s h = rw h

  -- Of a configuration none of whose maps is nil, as the model has them, `Update` panics exactly
  -- where the share has no section in it and its resource has no PVC.
  pub update_panics_iff :
      (s : SambaContainerConfig)
      → (update pl s ≡ panics)
        ↔ ((lookup (share_name pl) s.shares ≡ none) × (pl.smb_share.spec.storage.pvc ≡ none))
  update_panics_iff s = (
    (λ h. elim (Run-cases (find_share pl (add_globals pl s).1)) [
      | inl e ↦ (find_share_panics_iff s).0 e
      | inr (a, e) ↦ absurd (update_returns s (λ e'. cc (e, e')) h)
    ]),
    (λ h. update_of_find_share_panics s ((find_share_panics_iff s).1 h)),
  )

  -- `Update` panics where the share has no section in the configuration and its resource has no
  -- PVC, whatever else the configuration and the resources say: the path of the share is read
  -- through a nil pointer.
  pub update_panics :
      (s : SambaContainerConfig)
      → lookup (share_name pl) s.shares ≡ none
      → pl.smb_share.spec.storage.pvc ≡ none
      → update pl s ≡ panics
  update_panics s unlisted unclaimed = (update_panics_iff s).1 (unlisted, unclaimed)
