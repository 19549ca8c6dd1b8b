-- ===== src/Resources/Manager/Writes.antt =====
-- The steps on the config map write at most once.
use samba_operator.Base.{
  ◌≡◌, refl, sym, subst, Bool, true, false, Option, none, some, inl, inr, if◌then◌else◌,
}
use samba_operator.Base.Panics.{Run, returns, panics}
use samba_operator.Api.Meta.{ObjectMeta}
use samba_operator.Api.SmbShare.{SmbShare}
use samba_operator.Conf.{OperatorConfig}
use samba_operator.Planner.Instance.{Planner}
use samba_operator.Resources.Outcome.{Error, not_found, failed, Result, yields}
use samba_operator.Resources.Kube.{Client, Codec, ConfigMap, Runtime, Reply, got, refused}
use samba_operator.Resources.Attempt.{Attempt, gives, errs, crashes}
use samba_operator.Resources.Claims.{claim_ownership}
use samba_operator.Resources.Claims.Writes.{claim_ownership-Changes}
use samba_operator.Resources.Transfer.{plan_transfer}
use samba_operator.Resources.Transfer.Writes.{Resulting, run_plan-Resulting}
use samba_operator.Resources.ConfigMaps.{
  new_default_config_map, update_configuration, prune_configuration,
}
use samba_operator.Resources.ConfigMaps.Writes.{
  Planned, update_configuration-Planned, prune_configuration-Answers,
}
use samba_operator.Resources.Once.{AtMost, Answers, Changes, Results}
use samba_operator.Resources.Manager.{
  map_key, map_owners, set_map_owners, created_map, owned_map, create_map, map_or_new,
  get_or_create_config_map, after_update, after_claim, after_get, update_config_map,
  transfer_ownership, after_prune, after_transfer, finalize_found, finalize_config_map,
}

module _ {W : Type 0} (V : W → W → Type 0) (w : W) where
  -- Where there is a planner, nothing was written.
  abbrev pub Yielded : W × Run (Option Planner × Result) → Type 0
  Yielded (w', panics) = AtMost V w w'
  Yielded (w', returns (none, r)) = AtMost V w w'
  Yielded (w', returns (some pl, r)) = w' ≡ w

  -- Where the result does not yield, nothing was written.
  abbrev pub Settles : W × Run Result → Type 0
  Settles (w', panics) = AtMost V w w'
  Settles (w', returns r) = Results V w w' r

module _ {W : Type 0} (V : W → W → Type 0) (client : Client W) (runtime : Runtime)
    (cfg : OperatorConfig) (codec : Codec) (w : W)
    (creates : (cm : ConfigMap) → V w (client.config_maps.create w cm).0)
    (updates : (cm : ConfigMap) → V w (client.config_maps.update w cm).0) where
  created-Answers :
      (cm : ConfigMap) (r : W × Option Error)
      → V w r.0
      → Answers V w (created_map client runtime cfg codec cm r)
  unfolding created_map
  created-Answers cm (w', none) h = inr h
  created-Answers cm (w', some e) h = inr h

  owned-Answers :
      (cm : ConfigMap) (m : Option ObjectMeta)
      → Answers V w (owned_map client runtime cfg codec w cm m)
  unfolding owned_map
  owned-Answers cm none = inl refl
  owned-Answers cm (some m) = created-Answers _ _ (creates (record cm { metadata = m }))

  create_map-Answers :
      (s : SmbShare) (o : Attempt ConfigMap)
      → Answers V w (create_map client runtime cfg codec w s o)
  unfolding create_map
  create_map-Answers s (gives cm) =
      owned-Answers cm (runtime.set_controller_reference s cm.metadata)
  create_map-Answers s (errs e) = inl refl
  create_map-Answers s crashes = inl refl

  map_or_new-Answers :
      (s : SmbShare) (r : Reply ConfigMap) → Answers V w (map_or_new client runtime cfg codec w s r)
  unfolding map_or_new
  map_or_new-Answers s (got cm) = refl
  map_or_new-Answers s (refused (failed e)) = inl refl
  map_or_new-Answers s (refused not_found) =
      create_map-Answers s (new_default_config_map codec s.status.server_group s.metadata.namespace)

  updated-Yielded :
      (r : W × Attempt (Planner × Bool × ConfigMap))
      → Planned V client w updates r
      → Yielded V w (after_update client runtime cfg codec r)
  unfolding after_update
  updated-Yielded (w', errs e) h = h
  updated-Yielded (w', crashes) h = h
  updated-Yielded (w', gives (pl, true, cm)) h = h
  updated-Yielded (w', gives (pl, false, cm)) same = same

  claimed-Yielded :
      (s : SmbShare) (r : W × ConfigMap × Bool × Option Error)
      → Changes V w r
      → Yielded V w (after_claim client runtime cfg codec s r)
  unfolding after_claim
  claimed-Yielded s (w', cm, true, some e) h = h
  claimed-Yielded s (w', cm, false, some e) h = h
  claimed-Yielded s (w', cm, true, none) h = h
  claimed-Yielded s (w', cm, false, none) same =
      subst
        (λ v. Yielded V w (
          after_update client runtime cfg codec
            (update_configuration client cfg runtime.group_of codec v cm s)))
        (sym same)
        (updated-Yielded _
          (update_configuration-Planned V client w updates cfg runtime.group_of codec cm s))

  gotten-Yielded :
      (s : SmbShare) (r : W × Attempt (Bool × ConfigMap))
      → Answers V w r
      → Yielded V w (after_get client runtime cfg codec s r)
  unfolding after_get
  gotten-Yielded s (w', errs e) h = h
  gotten-Yielded s (w', crashes) h = h
  gotten-Yielded s (w', gives (true, cm)) h = h
  gotten-Yielded s (w', gives (false, cm)) same =
      subst
        (λ v. Yielded V w (
          after_claim client runtime cfg codec s (
            claim_ownership client.config_maps.update map_owners set_map_owners runtime.group_of v s
              cm)))
        (sym same)
        (claimed-Yielded s
          (claim_ownership client.config_maps.update map_owners set_map_owners runtime.group_of w s
            cm)
          (claim_ownership-Changes V w client.config_maps.update map_owners set_map_owners updates
            runtime.group_of s cm))

  pub update_config_map-Yielded :
      (s : SmbShare) → Yielded V w (update_config_map client runtime cfg codec w s)
  unfolding update_config_map get_or_create_config_map
  update_config_map-Yielded s =
      gotten-Yielded s _ (map_or_new-Answers s (client.config_maps.get w (map_key s)))

  pruned-Settles :
      (r : W × Attempt (Bool × ConfigMap))
      → Answers V w r
      → Settles V w (after_prune client runtime cfg codec r)
  unfolding after_prune
  pruned-Settles (w', errs x) h = (h, λ e. cc e)
  pruned-Settles (w', crashes) h = h
  pruned-Settles (w', gives (true, cm)) h = (h, λ e. cc e)
  pruned-Settles (w', gives (false, cm)) same = (inl same, λ e. same)

  either-Settles :
      (b : Bool) (w' : W) (r : Result) (rest : W × Run Result)
      → Results V w w' r
      → (b ≡ false → Settles V w rest)
      → Settles V w (if b then (w', returns r) else rest)
  either-Settles true w' r rest h k = h
  either-Settles false w' r rest h k = k refl

  transferred-Settles :
      (cm : ConfigMap) (s : SmbShare) (r : W × Result)
      → Resulting V w r
      → Settles V w (after_transfer client runtime cfg codec cm s r)
  unfolding after_transfer
  transferred-Settles cm s (w', r) (h, kept) =
      either-Settles (yields r) w' r _ (h, kept)
        (λ quiet.
          subst
            (λ v.
              Settles V w (
                after_prune client runtime cfg codec (prune_configuration client cfg codec v cm s)))
            (sym (kept quiet))
            (pruned-Settles _ (prune_configuration-Answers V client w updates cfg codec cm s)))

  found-Settles :
      (s : SmbShare) (r : Reply ConfigMap)
      → Settles V w (finalize_found client runtime cfg codec w s r)
  unfolding finalize_found transfer_ownership
  found-Settles s (refused not_found) = (inl refl, λ e. refl)
  found-Settles s (refused (failed x)) = (inl refl, λ e. refl)
  found-Settles s (got cm) = transferred-Settles cm s _ (
      run_plan-Resulting V w client.config_maps.update set_map_owners cm
        (plan_transfer runtime.group_of (client.shares.get w) cm.metadata s) updates)

  pub finalize_config_map-Settles :
      (s : SmbShare) → Settles V w (finalize_config_map client runtime cfg codec w s)
  unfolding finalize_config_map
  finalize_config_map-Settles s = found-Settles s (client.config_maps.get w (map_key s))
