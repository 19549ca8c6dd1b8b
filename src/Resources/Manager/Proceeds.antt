-- ===== src/Resources/Manager/Proceeds.antt =====
-- When the reconciliation of a share goes on after its config map.
use samba_operator.Base.{◌≡◌, refl, subst, ◌∙◌, Bool, true, false, Option, none, some}
use samba_operator.Base.Panics.{returns}
use samba_operator.Api.Meta.{ObjectMeta}
use samba_operator.Api.SmbShare.{SmbShare}
use samba_operator.Conf.{OperatorConfig}
use samba_operator.Planner.Instance.{Planner}
use samba_operator.Resources.Outcome.{Error, not_found, failed, Result, done}
use samba_operator.Resources.Kube.{Client, Codec, ConfigMap, Runtime, Reply, got, refused}
use samba_operator.Resources.Attempt.{Attempt, gives, errs, crashes}
use samba_operator.Resources.Claims.{claimed, claim_ownership}
use samba_operator.Resources.Claims.Once.{claim_ownership_unchanged, claim_ownership_owned}
use samba_operator.Resources.ConfigMaps.{update_configuration, new_default_config_map}
use samba_operator.Resources.ConfigMaps.Kept.{
  Current, update_configuration_unchanged, update_configuration_kept,
}
use samba_operator.Resources.Manager.{
  map_owners, set_map_owners, map_key, created_map, owned_map, create_map, map_or_new,
  get_or_create_config_map, after_update, after_claim, after_get, update_config_map,
}

module _ {W : Type 0} (client : Client W) (runtime : Runtime) (cfg : OperatorConfig)
    (codec : Codec) where
  created-false :
      (cm cm' : ConfigMap) (c : W × Option Error) (w' : W)
      → created_map client runtime cfg codec cm c ≡ (w', gives (false, cm'))
      → ⊥
  unfolding created_map
  created-false cm cm' (w, none) w' h = cc
  created-false cm cm' (w, some e) w' h = cc

  owned-false :
      (w w' : W) (cm cm' : ConfigMap) (m : Option ObjectMeta)
      → owned_map client runtime cfg codec w cm m ≡ (w', gives (false, cm'))
      → ⊥
  unfolding owned_map
  owned-false w w' cm cm' none h = cc
  owned-false w w' cm cm' (some m) h =
      created-false (record cm { metadata = m }) cm'
        (client.config_maps.create w (record cm { metadata = m })) w' h

  create-false :
      (w w' : W) (s : SmbShare) (a : Attempt ConfigMap) (cm' : ConfigMap)
      → create_map client runtime cfg codec w s a ≡ (w', gives (false, cm'))
      → ⊥
  unfolding create_map
  create-false w w' s (gives cm) cm' h =
      owned-false w w' cm cm' (runtime.set_controller_reference s cm.metadata) h
  create-false w w' s (errs e) cm' h = cc
  create-false w w' s crashes cm' h = cc

  map_found :
      (w w' : W) (s : SmbShare) (reply : Reply ConfigMap) (cm : ConfigMap)
      → map_or_new client runtime cfg codec w s reply ≡ (w', gives (false, cm))
      → (w' ≡ w) × (reply ≡ got cm)
  unfolding map_or_new
  map_found w w' s (got cm') cm h = (cc, cc)
  map_found w w' s (refused (failed e)) cm h = cc
  map_found w w' s (refused not_found) cm h = absurd (
      create-false w w' s (new_default_config_map codec s.status.server_group s.metadata.namespace)
        cm h)

  update_proceeds :
      (u : W × Attempt (Planner × Bool × ConfigMap)) (w' : W) (pl : Planner) (r : Result)
      → after_update client runtime cfg codec u ≡ (w', returns (some pl, r))
      → (r ≡ done) × (cm : ConfigMap) × (u ≡ (w', gives (pl, false, cm)))
  unfolding after_update
  update_proceeds (w, errs e) w' pl r h = cc
  update_proceeds (w, crashes) w' pl r h = cc
  update_proceeds (w, gives (pl', true, cm)) w' pl r h = cc
  update_proceeds (w, gives (pl', false, cm)) w' pl r h = (cc, cm, cc)

  -- What holds of a share whose config map needs nothing: the map exists, the share is among its
  -- owners, and the configuration in it holds all that the resources ask for.
  pub record Proceeds (w : W) (s : SmbShare) (pl : Planner) : Type 0 where
    pub map : ConfigMap
    pub exists : client.config_maps.get w (map_key s) ≡ got map
    pub owned : claimed runtime.group_of s (map_owners map) ≡ some none
    pub current : Current client cfg runtime.group_of codec w map s pl

  claim_proceeds :
      (s : SmbShare) (w₀ : W) (cm₀ : ConfigMap) (c : W × ConfigMap × Bool × Option Error) (w' : W)
      (pl : Planner) (r : Result)
      → claim_ownership client.config_maps.update map_owners set_map_owners runtime.group_of w₀ s
          cm₀
        ≡ c
      → after_claim client runtime cfg codec s c ≡ (w', returns (some pl, r))
      → (w' ≡ w₀)
        × (r ≡ done)
        × (claimed runtime.group_of s (map_owners cm₀) ≡ some none)
        × Current client cfg runtime.group_of codec w₀ cm₀ s pl
  unfolding after_claim
  claim_proceeds s w₀ cm₀ (w, cm, changed, some e) w' pl r c h = cc
  claim_proceeds s w₀ cm₀ (w, cm, true, none) w' pl r c h = cc
  claim_proceeds s w₀ cm₀ (w, cm, false, none) w' pl r c h =
      let (same_w, same_cm, owned) =
        claim_ownership_unchanged client.config_maps.update map_owners set_map_owners
          runtime.group_of w₀ w s cm₀ cm c in
      let (ended, cm', updated) =
        update_proceeds (update_configuration client cfg runtime.group_of codec w cm s) w' pl r h in
      let (still, current) =
        update_configuration_unchanged client cfg runtime.group_of codec w w' cm cm' s pl updated in
      (
        still ∙ same_w,
        ended,
        owned,
        subst (λ v. Current client cfg runtime.group_of codec v cm₀ s pl) same_w
            (subst (λ m. Current client cfg runtime.group_of codec w m s pl) same_cm current),
      )

  get-Proceeds :
      (w : W) (s : SmbShare) (g : W × Attempt (Bool × ConfigMap)) (w' : W) (pl : Planner)
      (r : Result)
      → map_or_new client runtime cfg codec w s (client.config_maps.get w (map_key s)) ≡ g
      → after_get client runtime cfg codec s g ≡ (w', returns (some pl, r))
      → (w' ≡ w) × (r ≡ done) × Proceeds w s pl
  unfolding after_get
  get-Proceeds w s (w₁, errs e) w' pl r g h = cc
  get-Proceeds w s (w₁, crashes) w' pl r g h = cc
  get-Proceeds w s (w₁, gives (true, cm)) w' pl r g h = cc
  get-Proceeds w s (w₁, gives (false, cm)) w' pl r g h =
      let (same, exists) = map_found w w₁ s (client.config_maps.get w (map_key s)) cm g in
      let (still, ended, owned, current) = claim_proceeds s w₁ cm _ w' pl r refl h in
      (
        still ∙ same,
        ended,
        record {
          map = cm;
          exists = exists;
          owned = owned;
          current = subst (λ v. Current client cfg runtime.group_of codec v cm s pl) same current;
        },
      )

  -- Where `updateConfigMap` returns a planner, its result is done and nothing was written: the
  -- group's config map exists, the share is among its owners, and the configuration in it holds
  -- all that the share's resources ask for.
  pub update_config_map-Proceeds :
      (w w' : W) (s : SmbShare) (pl : Planner) (r : Result)
      → update_config_map client runtime cfg codec w s ≡ (w', returns (some pl, r))
      → (w' ≡ w) × (r ≡ done) × Proceeds w s pl
  unfolding update_config_map get_or_create_config_map
  update_config_map-Proceeds w w' s pl r h =
      get-Proceeds w s
        (map_or_new client runtime cfg codec w s (client.config_maps.get w (map_key s))) w' pl r
        refl h

  -- And where that holds, `updateConfigMap` returns the planner and writes nothing.
  pub update_config_map_kept :
      (w : W) (s : SmbShare) (pl : Planner)
      → Proceeds w s pl
      → update_config_map client runtime cfg codec w s ≡ (w, returns (some pl, done))
  unfolding update_config_map get_or_create_config_map map_or_new after_get after_claim after_update
  update_config_map_kept w s pl c =
      rw
        (
          c.exists,
          claim_ownership_owned client.config_maps.update map_owners set_map_owners runtime.group_of
              w s c.map c.owned,
          update_configuration_kept client cfg runtime.group_of codec w c.map s pl c.current,
        )
        refl
