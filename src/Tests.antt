-- ===== src/Tests.antt =====
-- The theorems at concrete resources: a share of a PVC of the group "files", in user mode.
mod Cluster
mod Pods
mod OpenShift
mod Settings
mod Store
use samba_operator.Base.{
  String, ◌≡◌, refl, ◌≢◌, ◌==◌, eq_iff, true, false, none, some, [], ◌∷◌, if◌then◌else◌, is_some,
  ◌||◌, ◌↔◌, inr, subst,
}
use samba_operator.Base.Dict.{lookup, NodupKeys}
use samba_operator.Base.Panics.{Run, returns, panics}
use samba_operator.Api.Meta.{ObjectMeta}
use samba_operator.Api.SmbShare.{SmbShareSpec}
use samba_operator.Conf.{default_operator_config}
use samba_operator.Smbcc.{ConfigSection, ShareConfig, new, read_only_param, browseable_param}
use samba_operator.Planner.Instance.{Planner}
use samba_operator.Planner.Configuration.{
  update, prune, Change, share_name, instance_id, custom_options, browseable_value, read_only_value,
}
use samba_operator.Planner.Configuration.Applied.{override}
use samba_operator.Planner.Configuration.ShareOptions.{NoConflict, Conflict}
use samba_operator.Planner.Configuration.Steps.{common_options}
use samba_operator.Planner.Configuration.Section.{listed}
use samba_operator.Planner.Configuration.Converges.{
  Settled, update_unchanged_iff, Settled-update, update-Conflict, update_converges,
}
use samba_operator.Planner.Configuration.Faults.{update_panics}
use samba_operator.Planner.Configuration.Frame.{
  StartsFrom, update_share_options, update_keeps_shares, update_keeps_configs, update_listing,
}
use samba_operator.Planner.Configuration.Prune.{
  Nodup, shares_of, lists, without, prune_shares, prune_configs, prune_flag, prune_converges,
}
use samba_operator.Planner.Configuration.Group.{
  Reached, start, updated, Consistent, Reached-Consistent,
}
use samba_operator.Planner.Configuration.RoundTrip.{prune-update}

abbrev metadata_of : String → ObjectMeta
metadata_of name = record {
  name = name;
  namespace = "samba";
  uid = "uid-of-the-share";
  labels = [];
  annotations = [];
  owner_references = [];
  finalizers = [];
  deletion_timestamp = none;
}

abbrev files_spec : SmbShareSpec
files_spec = record {
  share_name = "files";
  storage = record { pvc = some (record { name = "data"; spec = none; path = "top" }) };
  read_only = true;
  browseable = true;
  security_config = "";
  common_config = "";
  custom_share_config =
      some (record { use_unsafe_custom_config = true; configs = ("comment", "ours") ∷ [] });
  scaling = none;
}

abbrev planner_of : SmbShareSpec → Planner
planner_of spec = record {
  smb_share = record {
    metadata = metadata_of "share";
    spec = spec;
    status = record { server_group = "g" };
  };
  security_config = none;
  common_config = none;
  global_config = default_operator_config;
}

abbrev files : Planner
files = planner_of files_spec

-- The custom options say that the share is not read only.
abbrev gainsaid : Planner
gainsaid = planner_of (record files_spec {
  custom_share_config =
      some (record { use_unsafe_custom_config = true; configs = ("read only", "no") ∷ [] });
})

abbrev no_pvc : Planner
no_pvc = planner_of (record files_spec { storage = record { pvc = none } })

abbrev or_new : Run Change → Change
or_new (returns r) = r
or_new panics = (false, new)

-- The configuration with the share in it.
after_files : Change
unfolding update
after_files = or_new (update files new)

update-files : update files new ≡ returns after_files
unfolding update after_files
update-files = refl

files_custom-NodupKeys : NodupKeys (custom_options files_spec)
unfolding custom_options lookup
files_custom-NodupKeys = (refl, tt)

files_common-NodupKeys : NodupKeys (common_options files)
files_common-NodupKeys = tt

files-NoConflict : NoConflict files_spec
unfolding custom_options lookup
files-NoConflict = record { browseable = (λ w e. cc e); read_only = (λ w e. cc e) }

files_instance : "g" ≡ instance_id files
unfolding instance_id
files_instance = refl

files-Reached : Reached "g" after_files.1
unfolding instance_id
files-Reached = updated files new after_files start refl update-files

Reached-Consistent_example : Consistent "g" after_files.1
Reached-Consistent_example = Reached-Consistent "g" after_files.1 files-Reached

update_converges_example : update files after_files.1 ≡ returns (false, after_files.1)
update_converges_example =
    update_converges files new after_files files_custom-NodupKeys files_common-NodupKeys
      files-NoConflict update-files

update_unchanged_iff_example :
    (update files after_files.1 ≡ returns (false, after_files.1))
    ↔ (Settled files after_files.1 × (after_files.1 ≡ after_files.1))
update_unchanged_iff_example = update_unchanged_iff files after_files.1 after_files.1

update_share_options_example :
    (old share : ShareConfig) × StartsFrom files (lookup (share_name files) new.shares) old
    × (lookup (share_name files) after_files.1.shares ≡ some share)
    × ((j : String)
        → lookup j share.options ≡ (
            if read_only_param == j
            then some (read_only_value files_spec)
            else if browseable_param == j
            then some (browseable_value files_spec)
            else override (lookup j (custom_options files_spec)) (lookup j old.options)))
update_share_options_example =
    update_share_options files new after_files files_custom-NodupKeys update-files

no_pvc_unlisted : lookup (share_name no_pvc) new.shares ≡ none
unfolding lookup
no_pvc_unlisted = refl

update_panics_example : update no_pvc new ≡ panics
update_panics_example = update_panics no_pvc new no_pvc_unlisted refl

after_gainsaid : Change
unfolding update
after_gainsaid = or_new (update gainsaid new)

update-gainsaid : update gainsaid new ≡ returns after_gainsaid
unfolding update after_gainsaid
update-gainsaid = refl

gainsaid-Conflict : Conflict gainsaid.smb_share.spec
unfolding custom_options lookup
gainsaid-Conflict = inr ("no", refl, (λ e. cc e))

update-Conflict_example : after_gainsaid.0 ≡ true
update-Conflict_example =
    update-Conflict gainsaid new after_gainsaid gainsaid-Conflict update-gainsaid

new_share : lookup (share_name files) new.shares ≡ none
unfolding lookup
new_share = refl

new_entry : lists (share_name files) (lookup (instance_id files) new.configs) ≡ false
unfolding lookup
new_entry = refl

prune-update_example :
    ((k : String) → lookup k (prune files after_files.1).1.shares ≡ lookup k new.shares)
    × (shares_of (lookup (instance_id files) (prune files after_files.1).1.configs)
        ≡ shares_of (lookup (instance_id files) new.configs))
prune-update_example = prune-update files new after_files new_share new_entry update-files

files_listing-Nodup : Nodup (shares_of (lookup (instance_id files) after_files.1.configs))
files_listing-Nodup =
    subst (λ i. Nodup (shares_of (lookup i after_files.1.configs))) files_instance
      Reached-Consistent_example.nodup

prune_converges_example :
    prune files (prune files after_files.1).1 ≡ (false, (prune files after_files.1).1)
prune_converges_example = prune_converges files after_files.1 files_listing-Nodup

prune_flag_example : (prune files after_files.1).0 ≡ (
    is_some (lookup (share_name files) after_files.1.shares)
    || lists (share_name files) (lookup (instance_id files) after_files.1.configs))
prune_flag_example = prune_flag files after_files.1

prune_shares_example :
    lookup "files" (prune files after_files.1).1.shares
    ≡ (if share_name files == "files" then none else lookup "files" after_files.1.shares)
prune_shares_example = prune_shares files after_files.1 "files"

update_listing_example :
    (cfg : ConfigSection) × (lookup (instance_id files) after_files.1.configs ≡ some cfg)
    × (cfg.shares ≡ listed (share_name files) (lookup (instance_id files) new.configs))
update_listing_example = update_listing files new after_files update-files
