-- ===== src/Resources/OpenShift.antt =====
-- internal/resources/openshift.go: what is undone for a share on OpenShift. The client's calls for
-- the five kinds of objects are parameters; the objects are only passed from one to the other.
pub mod Undone
pub mod Unread
pub mod Writes
use samba_operator.Base.{
  String, ◌==◌, if◌then◌else◌, Bool, true, false, Option, none, some, List, [], ◌∷◌, is_some,
}
use samba_operator.Base.Dict.{Dict, lookup, insert}
use samba_operator.Api.Meta.{NamespacedName}
use samba_operator.Api.SmbShare.{SmbShare}
use samba_operator.Conf.{OperatorConfig, cluster_type_open_shift, cluster_type_default}
use samba_operator.Resources.Outcome.{Error, Result, done, requeued, stopped}
use samba_operator.Resources.Labels.{samba_scc_name}

pub data Grant : Type 0 where
  metrics_role_binding : Grant
  metrics_role : Grant
  scc_role_binding : Grant
  scc_role : Grant
  service_account : Grant

-- The names in the share's namespace.
abbrev pub grant_name : Grant → String
grant_name metrics_role_binding = "samba-metrics-rolebinding"
grant_name metrics_role = "samba-metrics-role"
grant_name scc_role_binding = "samba-scc-rolebinding"
grant_name scc_role = "samba-scc-role"
grant_name service_account = "samba"

abbrev pub grant_key : SmbShare → Grant → NamespacedName
grant_key s g = record { namespace = s.metadata.namespace; name = grant_name g }

-- `get` answers with the error, if any.
pub record GrantApi (W : Type 0) : Type 0 where
  pub get : W → Grant → NamespacedName → Option Error
  pub delete : W → Grant → NamespacedName → W × Option Error

-- `requireAnnotationsOf`
unfoldable pub require_annotations_of : SmbShare → SmbShare
unfolding insert
require_annotations_of s = record s {
  metadata = record s.metadata {
    annotations = insert "openshift.io/scc" samba_scc_name s.metadata.annotations;
  };
}

-- `updateClusterType`, with the answer of `IsOpenShiftCluster`.
unfoldable pub update_cluster_type : Bool → OperatorConfig → OperatorConfig
update_cluster_type open_shift cfg =
    if cfg.cluster_type == ""
    then record cfg {
      cluster_type = if open_shift then cluster_type_open_shift else cluster_type_default;
    }
    else cfg

module _ {W : Type 0} (api : GrantApi W) where
  unfoldable pub deleted : W × Option Error → W × Result
  deleted (w, none) = (w, requeued)
  deleted (w, some e) = (w, stopped e)

  -- An error of the read, not found or another, lets the finalization go on.
  unfoldable pub finalize_grant : W → SmbShare → Grant → Option Error → W × Result → W × Result
  unfolding deleted
  finalize_grant w s g none later = deleted (api.delete w g (grant_key s g))
  finalize_grant w s g (some e) later = later

  unfoldable pub finalize_grants : W → SmbShare → List Grant → W × Result
  unfolding finalize_grant
  finalize_grants w s [] = (w, done)
  finalize_grants w s (g ∷ gs) =
      finalize_grant w s g (api.get w g (grant_key s g)) (finalize_grants w s gs)

  abbrev pub all_grants : List Grant
  all_grants =
      metrics_role_binding ∷ metrics_role ∷ scc_role_binding ∷ scc_role ∷ service_account ∷ []

  -- The settings are those that `updateClusterType` leaves.
  unfoldable pub finalize_for_openshift : W → OperatorConfig → SmbShare → W × Result
  unfolding finalize_grants
  finalize_for_openshift w cfg s =
      if cfg.cluster_type == cluster_type_open_shift
      then finalize_grants w s all_grants
      else (w, done)
