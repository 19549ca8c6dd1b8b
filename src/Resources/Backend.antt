-- ===== src/Resources/Backend.antt =====
-- `updateBackend` and `validateBackend`: the annotation that records how a share is served, so that
-- a later change of the availability mode is told.
pub mod Recorded
pub mod Writes
use samba_operator.Base.{String, ◌<>◌, ◌==◌, ◌!=◌, Bool, true, false, not, ◌&&◌, Option, none, some}
use samba_operator.Base.{if◌then◌else◌, or_zero}
use samba_operator.Base.Dict.{lookup, insert}
use samba_operator.Api.SmbShare.{SmbShare}
use samba_operator.Planner.Instance.{Planner}
use samba_operator.Planner.Properties.{is_clustered}
use samba_operator.Resources.Outcome.{Error, failed, Result, done, requeued, stopped}
use samba_operator.Resources.Kube.{Client}

abbrev pub server_backend : String
server_backend = "samba-operator.samba.org/serverBackend"

abbrev pub clustered_backend : String
clustered_backend = "clustered:ctdb/statefulset"

abbrev pub standard_backend : String
standard_backend = "standard:deployment"

abbrev pub backend_of : SmbShare → String
backend_of s = or_zero (lookup server_backend s.metadata.annotations)

-- The backend of the planner's mode.
unfoldable pub wanted_backend : Planner → String
unfolding is_clustered
wanted_backend pl = if is_clustered pl then clustered_backend else standard_backend

unfoldable pub annotated : Planner → SmbShare
unfolding insert wanted_backend
annotated pl =
    let s = pl.smb_share in
    record s {
      metadata = record s.metadata {
        annotations = insert server_backend (wanted_backend pl) s.metadata.annotations;
      };
    }

unfoldable pub validate_backend : Planner → Result
unfolding is_clustered lookup
validate_backend pl =
    let b = backend_of pl.smb_share in
    if is_clustered pl && b != clustered_backend
    then stopped (failed ("Can not convert SmbShare to clustered instance. Current backend: " <> b))
    else if not (is_clustered pl) && b != standard_backend
    then stopped
        (failed ("Can not convert SmbShare to non-clustered instance. Current backend: " <> b))
    else done

update_result : Option Error → Result
update_result none = requeued
update_result (some e) = stopped e

module _ {W : Type 0} (client : Client W) where
  -- The planner's share has the annotation from here on.
  unfoldable pub update_backend : W → Planner → W × Planner × Result
  unfolding annotated update_result
  update_backend w pl =
      let (w', err) = client.shares.update w (annotated pl) in
      (w', record pl { smb_share = annotated pl }, update_result err)

  -- What `Update` does about the backend.
  unfoldable pub settle_backend : W → Planner → W × Planner × Result
  unfolding update_backend validate_backend lookup
  settle_backend w pl =
      if backend_of pl.smb_share != "" then (w, pl, validate_backend pl) else update_backend w pl
