-- ===== src/Resources/ConfigMaps/Writes.antt =====
-- The config map is written once.
use samba_operator.Base.{◌≡◌, refl, String, Bool, true, false, Option, none, some, inl, inr}
use samba_operator.Api.SmbShare.{SmbShare}
use samba_operator.Conf.{OperatorConfig}
use samba_operator.Planner.Instance.{Planner}
use samba_operator.Planner.Configuration.{Change}
use samba_operator.Resources.Outcome.{Error}
use samba_operator.Resources.Kube.{Client, Codec, ConfigMap}
use samba_operator.Resources.Attempt.{Attempt, gives, errs, crashes}
use samba_operator.Resources.Once.{AtMost, Answers}
use samba_operator.Resources.ConfigMaps.{
  written, write_map, set_container_config, update_planned, plan_configuration,
  update_configuration, prune_planned, plan_prune, prune_configuration,
}

module _ {W : Type 0} (V : W → W → Type 0) (client : Client W) (w : W)
    (updates : (cm : ConfigMap) → V w (client.config_maps.update w cm).0) where
  -- The same as of other answers, where the planner comes with them.
  abbrev pub Planned : W × Attempt (Planner × Bool × ConfigMap) → Type 0
  Planned (w', gives (pl, false, cm)) = w' ≡ w
  Planned (w', gives (pl, true, cm)) = AtMost V w w'
  Planned (w', errs e) = AtMost V w w'
  Planned (w', crashes) = AtMost V w w'

  wrote-Planned :
      (pl : Planner) (cm : ConfigMap) (r : W × Option Error)
      → V w r.0
      → Planned (r.0, written (pl, true, cm) r.1)
  unfolding written
  wrote-Planned pl cm (w', none) h = inr h
  wrote-Planned pl cm (w', some e) h = inr h

  wrote-Answers :
      (cm : ConfigMap) (r : W × Option Error) → V w r.0 → Answers V w (r.0, written (true, cm) r.1)
  unfolding written
  wrote-Answers cm (w', none) h = inr h
  wrote-Answers cm (w', some e) h = inr h

  write_map-Planned :
      (pl : Planner) (o : Attempt ConfigMap) → Planned (write_map client w (λ cm. (pl, true, cm)) o)
  unfolding write_map
  write_map-Planned pl (gives cm) =
      wrote-Planned pl cm (client.config_maps.update w cm) (updates cm)
  write_map-Planned pl (errs e) = inl refl
  write_map-Planned pl crashes = inl refl

  write_map-Answers :
      (o : Attempt ConfigMap) → Answers V w (write_map client w (λ cm. (true, cm)) o)
  unfolding write_map
  write_map-Answers (gives cm) = wrote-Answers cm (client.config_maps.update w cm) (updates cm)
  write_map-Answers (errs e) = inl refl
  write_map-Answers crashes = inl refl

  update_planned-Planned :
      (codec : Codec) (cm : ConfigMap) (plan : Attempt (Planner × Change))
      → Planned (update_planned client codec w cm plan)
  unfolding update_planned
  update_planned-Planned codec cm (gives (pl, (false, state))) = refl
  update_planned-Planned codec cm (gives (pl, (true, state))) =
      write_map-Planned pl (set_container_config codec cm state)
  update_planned-Planned codec cm (errs e) = inl refl
  update_planned-Planned codec cm crashes = inl refl

  pub update_configuration-Planned :
      (cfg : OperatorConfig) (group_of : String → Option String) (codec : Codec) (cm : ConfigMap)
      (s : SmbShare)
      → Planned (update_configuration client cfg group_of codec w cm s)
  unfolding update_configuration
  update_configuration-Planned cfg group_of codec cm s =
      update_planned-Planned codec cm (plan_configuration client w cfg group_of codec cm s)

  pruned-Answers :
      (codec : Codec) (cm : ConfigMap) (plan : Attempt Change)
      → Answers V w (prune_planned client codec w cm plan)
  unfolding prune_planned
  pruned-Answers codec cm (gives (false, state)) = refl
  pruned-Answers codec cm (gives (true, state)) =
      write_map-Answers (set_container_config codec cm state)
  pruned-Answers codec cm (errs e) = inl refl
  pruned-Answers codec cm crashes = inl refl

  pub prune_configuration-Answers :
      (cfg : OperatorConfig) (codec : Codec) (cm : ConfigMap) (s : SmbShare)
      → Answers V w (prune_configuration client cfg codec w cm s)
  unfolding prune_configuration
  prune_configuration-Answers cfg codec cm s = pruned-Answers codec cm (plan_prune cfg codec cm s)
