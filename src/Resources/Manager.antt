-- ===== src/Resources/Manager.antt =====
-- internal/resources/smbshare.go: the steps of the manager that keep a share's config map, and
-- `transferOwnership` over the client.
pub mod Proceeds
pub mod Finalized
pub mod Writes
use samba_operator.Base.{String, Bool, true, false, Option, none, some, List, if◌then◌else◌}
use samba_operator.Base.Panics.{Run, returns, panics}
use samba_operator.Api.Meta.{ObjectMeta, OwnerReference, NamespacedName}
use samba_operator.Api.SmbShare.{SmbShare}
use samba_operator.Conf.{OperatorConfig}
use samba_operator.Planner.Instance.{Planner}
use samba_operator.Resources.Outcome.{
  Error, not_found, failed, Result, done, requeued, stopped, yields,
}
use samba_operator.Resources.Kube.{Client, Codec, ConfigMap, Runtime, Reply, got, refused}
use samba_operator.Resources.Attempt.{Attempt, gives, errs, crashes}
use samba_operator.Resources.Claims.{claim_ownership}
use samba_operator.Resources.Transfer.{plan_transfer, run_plan}
use samba_operator.Resources.ConfigMaps.{
  new_default_config_map, update_configuration, prune_configuration,
}

abbrev pub map_owners : ConfigMap → List OwnerReference
map_owners cm = cm.metadata.owner_references

abbrev pub set_map_owners : ConfigMap → List OwnerReference → ConfigMap
set_map_owners cm refs = record cm { metadata = record cm.metadata { owner_references = refs } }

-- The name of the config map is that of the instance: the server group.
abbrev pub map_key : SmbShare → NamespacedName
map_key s = record { namespace = s.metadata.namespace; name = s.status.server_group }

module _ {W : Type 0} (client : Client W) (runtime : Runtime) (cfg : OperatorConfig)
    (codec : Codec) where
  created_map : ConfigMap → W × Option Error → W × Attempt (Bool × ConfigMap)
  created_map cm (w, none) = (w, gives (true, cm))
  created_map cm (w, some e) = (w, errs e)

  owned_map : W → ConfigMap → Option ObjectMeta → W × Attempt (Bool × ConfigMap)
  unfolding created_map
  owned_map w cm none = (w, errs (failed "unable to set the controller reference"))
  owned_map w cm (some m) =
      let cm' = record cm { metadata = m } in created_map cm' (client.config_maps.create w cm')

  -- Where the default does not encode, the log of the error reads through the nil config map.
  create_map : W → SmbShare → Attempt ConfigMap → W × Attempt (Bool × ConfigMap)
  unfolding owned_map
  create_map w s (gives cm) = owned_map w cm (runtime.set_controller_reference s cm.metadata)
  create_map w s (errs e) = (w, crashes)
  create_map w s crashes = (w, crashes)

  map_or_new : W → SmbShare → Reply ConfigMap → W × Attempt (Bool × ConfigMap)
  unfolding create_map new_default_config_map
  map_or_new w s (got cm) = (w, gives (false, cm))
  map_or_new w s (refused (failed e)) = (w, errs (failed e))
  map_or_new w s (refused not_found) =
      create_map w s (new_default_config_map codec s.status.server_group s.metadata.namespace)

  -- The flag says whether the config map was created.
  unfoldable pub get_or_create_config_map : W → SmbShare → W × Attempt (Bool × ConfigMap)
  unfolding map_or_new
  get_or_create_config_map w s = map_or_new w s (client.config_maps.get w (map_key s))

  abbrev pub Step : Type 0
  Step = W × Run (Option Planner × Result)

  after_update : W × Attempt (Planner × Bool × ConfigMap) → Step
  after_update (w, errs e) = (w, returns (none, stopped e))
  after_update (w, crashes) = (w, panics)
  after_update (w, gives (pl, true, cm)) = (w, returns (none, requeued))
  after_update (w, gives (pl, false, cm)) = (w, returns (some pl, done))

  after_claim : SmbShare → W × ConfigMap × Bool × Option Error → Step
  unfolding after_update update_configuration
  after_claim s (w, cm, changed, some e) = (w, returns (none, stopped e))
  after_claim s (w, cm, true, none) = (w, returns (none, requeued))
  after_claim s (w, cm, false, none) =
      after_update (update_configuration client cfg runtime.group_of codec w cm s)

  after_get : SmbShare → W × Attempt (Bool × ConfigMap) → Step
  unfolding after_claim claim_ownership
  after_get s (w, errs e) = (w, returns (none, stopped e))
  after_get s (w, crashes) = (w, panics)
  after_get s (w, gives (true, cm)) = (w, returns (none, requeued))
  after_get s (w, gives (false, cm)) =
      after_claim s (
        claim_ownership client.config_maps.update map_owners set_map_owners runtime.group_of w s cm)

  -- A planner is returned only where nothing was left to do.
  unfoldable pub update_config_map : W → SmbShare → Step
  unfolding after_get get_or_create_config_map
  update_config_map w s = after_get s (get_or_create_config_map w s)

  -- `transferOwnership` of an object of any kind.
  unfoldable pub transfer_ownership :
      {A : Type 0}
      → (W → A → W × Option Error)
      → (A → ObjectMeta)
      → (A → List OwnerReference → A)
      → W
      → A
      → SmbShare
      → W × Result
  unfolding plan_transfer run_plan
  transfer_ownership update metadata set_owners w obj previous =
      run_plan update set_owners w obj
        (plan_transfer runtime.group_of (client.shares.get w) (metadata obj) previous)

  after_prune : W × Attempt (Bool × ConfigMap) → W × Run Result
  after_prune (w, errs e) = (w, returns (stopped e))
  after_prune (w, crashes) = (w, panics)
  after_prune (w, gives (true, cm)) = (w, returns requeued)
  after_prune (w, gives (false, cm)) = (w, returns done)

  after_transfer : ConfigMap → SmbShare → W × Result → W × Run Result
  unfolding after_prune prune_configuration
  after_transfer cm s (w, r) =
      if yields r then (w, returns r) else after_prune (prune_configuration client cfg codec w cm s)

  finalize_found : W → SmbShare → Reply ConfigMap → W × Run Result
  unfolding after_transfer transfer_ownership
  finalize_found w s (refused not_found) = (w, returns done)
  finalize_found w s (refused (failed e)) = (w, returns (stopped (failed e)))
  finalize_found w s (got cm) =
      after_transfer cm s
        (transfer_ownership client.config_maps.update (λ m. m.metadata) set_map_owners w cm s)

  -- `finalizeConfigMap`
  unfoldable pub finalize_config_map : W → SmbShare → W × Run Result
  unfolding finalize_found
  finalize_config_map w s = finalize_found w s (client.config_maps.get w (map_key s))
