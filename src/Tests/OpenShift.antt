-- ===== src/Tests/OpenShift.antt =====
-- The theorem on the finalization on OpenShift, where a service account is left.
use samba_operator.Base.{◌≡◌, refl, ◌≢◌, ◌⊎◌, Bool, true, false, Option, none, some}
use samba_operator.Conf.{OperatorConfig, default_operator_config}
use samba_operator.Resources.Outcome.{Error, not_found, done, stopped}
use samba_operator.Resources.OpenShift.{
  Grant, metrics_role_binding, metrics_role, scc_role_binding, scc_role, service_account, GrantApi,
  all_grants,
}
use samba_operator.Resources.OpenShift.Undone.{Deletes, found, rounds, finalize_for_openshift_ends}
use samba_operator.Tests.{files}

-- The world says whether the service account exists.
abbrev read_account : Bool → Grant → Option Error
read_account true service_account = none
read_account false service_account = some not_found
read_account w metrics_role_binding = some not_found
read_account w metrics_role = some not_found
read_account w scc_role_binding = some not_found
read_account w scc_role = some not_found

abbrev delete_account : Bool → Grant → Bool × Option Error
delete_account w service_account = (false, none)
delete_account w metrics_role_binding = (w, some not_found)
delete_account w metrics_role = (w, some not_found)
delete_account w scc_role_binding = (w, some not_found)
delete_account w scc_role = (w, some not_found)

abbrev account_api : GrantApi Bool
account_api = record {
  get = (λ w g key. read_account w g);
  delete = (λ w g key. delete_account w g);
}

account-gone :
    (w w' : Bool) (g : Grant)
    → delete_account w g ≡ (w', none)
    → (e : Error) × (read_account w' g ≡ some e)
account-gone w true service_account h = absurd (cc h)
account-gone w false service_account h = (not_found, refl)
account-gone w w' metrics_role_binding h = (not_found, refl)
account-gone w w' metrics_role h = (not_found, refl)
account-gone w w' scc_role_binding h = (not_found, refl)
account-gone w w' scc_role h = (not_found, refl)

account-kept :
    (w w' : Bool) (g h : Grant)
    → delete_account w g ≡ (w', none)
    → h ≢ g
    → read_account w' h ≡ read_account w h
account-kept w w' g metrics_role_binding d ne = refl
account-kept w w' g metrics_role d ne = refl
account-kept w w' g scc_role_binding d ne = refl
account-kept w w' g scc_role d ne = refl
account-kept w w' service_account service_account d ne = absurd (ne refl)
account-kept w w' metrics_role_binding service_account d ne = cc
account-kept w w' metrics_role service_account d ne = cc
account-kept w w' scc_role_binding service_account d ne = cc
account-kept w w' scc_role service_account d ne = cc

account-Deletes : Deletes account_api files.smb_share
account-Deletes = record { gone = account-gone; kept = account-kept }

abbrev open_shift : OperatorConfig
open_shift = record default_operator_config { cluster_type = "openshift" }

finalize_for_openshift_ends_example :
    let last =
      rounds account_api files.smb_share open_shift
        (found account_api files.smb_share true (all_grants account_api))
        true in
    ((last.1 ≡ done) × (found account_api files.smb_share last.0 (all_grants account_api) ≡ 0))
    ⊎ ((e : Error) × (last.1 ≡ stopped e))
finalize_for_openshift_ends_example =
    finalize_for_openshift_ends account_api files.smb_share account-Deletes open_shift true refl
