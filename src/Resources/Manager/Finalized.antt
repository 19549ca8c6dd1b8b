-- ===== src/Resources/Manager/Finalized.antt =====
-- When the finalization of a share goes on after its config map.
use samba_operator.Base.{◌≡◌, refl, ◌∙◌, ◌⊎◌, inl, inr, Bool, true, false, arith, Bool-cases}
use samba_operator.Base.Panics.{returns}
use samba_operator.Api.SmbShare.{SmbShare}
use samba_operator.Conf.{OperatorConfig}
use samba_operator.Resources.Outcome.{not_found, failed, Result, yields}
use samba_operator.Resources.Kube.{Client, Codec, ConfigMap, Runtime, Reply, got, refused}
use samba_operator.Resources.Attempt.{Attempt, gives, errs, crashes}
use samba_operator.Resources.ConfigMaps.{prune_configuration}
use samba_operator.Resources.ConfigMaps.Pruned.{
  Forgotten, prune_configuration_unchanged, prune_configuration_quiet,
}
use samba_operator.Resources.Transfer.{plan_transfer}
use samba_operator.Resources.Transfer.Kept.{run_plan_kept}
use samba_operator.Resources.Manager.{
  map_key, set_map_owners, after_prune, after_transfer, finalize_found, finalize_config_map,
  transfer_ownership,
}

module _ {W : Type 0} (client : Client W) (runtime : Runtime) (cfg : OperatorConfig)
    (codec : Codec) where
  prune_done :
      (u : W × Attempt (Bool × ConfigMap)) (w' : W) (r : Result)
      → after_prune client runtime cfg codec u ≡ (w', returns r)
      → yields r ≡ false
      → (cm : ConfigMap) × (u ≡ (w', gives (false, cm)))
  unfolding after_prune
  prune_done (w, errs e) w' r h y = absurd (ground (arith, h, y))
  prune_done (w, crashes) w' r h y = cc
  prune_done (w, gives (true, cm)) w' r h y = absurd (ground (arith, h, y))
  prune_done (w, gives (false, cm)) w' r h y = (cm, cc)

  -- What is known of the config map of a share, where its finalization goes on.
  abbrev pub Released : SmbShare → Reply ConfigMap → Type 0
  Released s reply =
      (reply ≡ refused not_found) ⊎ ((cm : ConfigMap) × (reply ≡ got cm) × Forgotten cfg codec cm s)

  transfer_done :
      (cm : ConfigMap) (s : SmbShare) (t : W × Result) (w' : W) (r : Result)
      → after_transfer client runtime cfg codec cm s t ≡ (w', returns r)
      → yields r ≡ false
      → Forgotten cfg codec cm s
  unfolding after_transfer
  transfer_done cm s (w, r₀) w' r h y = elim (Bool-cases (yields r₀)) [
    | inl stops ↦ absurd (ground (arith, h, y, stops))
    | inr goes ↦
        let h' : after_prune client runtime cfg codec (prune_configuration client cfg codec w cm s)
            ≡ (w', returns r) =
          ground (arith, h, goes) in
        let (cm', kept) = prune_done (prune_configuration client cfg codec w cm s) w' r h' y in
        prune_configuration_unchanged client runtime cfg codec w w' cm cm' s kept
  ]

  found_done :
      (w : W) (s : SmbShare) (reply : Reply ConfigMap) (w' : W) (r : Result)
      → finalize_found client runtime cfg codec w s reply ≡ (w', returns r)
      → yields r ≡ false
      → Released s reply
  unfolding finalize_found
  found_done w s (refused not_found) w' r h y = inl refl
  found_done w s (refused (failed e)) w' r h y = absurd (ground (arith, h, y))
  found_done w s (got cm) w' r h y = inr (
    cm,
    refl,
    transfer_done cm s
        (transfer_ownership client runtime cfg codec client.config_maps.update (λ m. m.metadata)
          set_map_owners w cm s)
        w' r h y,
  )

  -- Where `finalizeConfigMap` lets the finalization go on, so that the finalizer may be taken off,
  -- there is no config map of the group, or the configuration in it neither defines the share nor
  -- lists it for the instance.
  pub finalize_config_map_releases :
      (w w' : W) (s : SmbShare) (r : Result)
      → finalize_config_map client runtime cfg codec w s ≡ (w', returns r)
      → yields r ≡ false
      → Released s (client.config_maps.get w (map_key s))
  unfolding finalize_config_map
  finalize_config_map_releases w w' s r h y =
      found_done w s (client.config_maps.get w (map_key s)) w' r h y

  after_quiet :
      (w₀ : W) (cm : ConfigMap) (s : SmbShare) (t : W × Result) (w' : W) (r : Result)
      → after_transfer client runtime cfg codec cm s t ≡ (w', returns r)
      → yields r ≡ false
      → (yields t.1 ≡ false → t.0 ≡ w₀)
      → w' ≡ w₀
  unfolding after_transfer
  after_quiet w₀ cm s (w, r₀) w' r h y left = elim (Bool-cases (yields r₀)) [
    | inl stops ↦ absurd (ground (arith, h, y, stops))
    | inr goes ↦
        let h' : after_prune client runtime cfg codec (prune_configuration client cfg codec w cm s)
            ≡ (w', returns r) =
          ground (arith, h, goes) in
        let (cm', kept) = prune_done (prune_configuration client cfg codec w cm s) w' r h' y in
        prune_configuration_quiet client runtime cfg codec w w' cm cm' s kept ∙ left goes
  ]

  found_quiet :
      (w : W) (s : SmbShare) (reply : Reply ConfigMap) (w' : W) (r : Result)
      → finalize_found client runtime cfg codec w s reply ≡ (w', returns r)
      → yields r ≡ false
      → w' ≡ w
  unfolding finalize_found transfer_ownership
  found_quiet w s (refused not_found) w' r h y = cc
  found_quiet w s (refused (failed e)) w' r h y = absurd (ground (arith, h, y))
  found_quiet w s (got cm) w' r h y =
      after_quiet w cm s
        (transfer_ownership client runtime cfg codec client.config_maps.update (λ m. m.metadata)
          set_map_owners w cm s)
        w' r h y
        (λ goes.
          (run_plan_kept client.config_maps.update set_map_owners w cm
            (plan_transfer runtime.group_of (client.shares.get w) cm.metadata s) goes).0)

  -- Where `finalizeConfigMap` lets the finalization go on, it wrote nothing.
  pub finalize_config_map_quiet :
      (w w' : W) (s : SmbShare) (r : Result)
      → finalize_config_map client runtime cfg codec w s ≡ (w', returns r)
      → yields r ≡ false
      → w' ≡ w
  unfolding finalize_config_map
  finalize_config_map_quiet w w' s r h y =
      found_quiet w s (client.config_maps.get w (map_key s)) w' r h y
