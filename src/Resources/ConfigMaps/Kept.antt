-- ===== src/Resources/ConfigMaps/Kept.antt =====
-- Where `updateConfiguration` leaves the config map as it is.
use samba_operator.Base.{String, ◌≡◌, refl, true, false, Option}
use samba_operator.Api.SmbShare.{SmbShare}
use samba_operator.Conf.{OperatorConfig}
use samba_operator.Smbcc.{SambaContainerConfig}
use samba_operator.Planner.Instance.{Planner}
use samba_operator.Planner.Configuration.{Change}
use samba_operator.Planner.Configuration.Converges.{update_unchanged_iff, Settled}
use samba_operator.Resources.Kube.{Client, Codec, ConfigMap}
use samba_operator.Resources.Attempt.{Attempt, gives, errs, crashes}
use samba_operator.Resources.ConfigMaps.{
  get_container_config, set_container_config, admit, plan_configuration, update_planned,
  update_configuration,
}
use samba_operator.Resources.ConfigMaps.Stored.{
  planned, plan_of, unchanged_of_plan, write_map-gives,
}

module _ {W : Type 0} (client : Client W) (cfg : OperatorConfig) (group_of : String → Option String)
    (codec : Codec) where
  unchanged_planned :
      (w w' : W) (cm cm' : ConfigMap) (pl : Planner) (p : Attempt (Planner × Change))
      → update_planned client codec w cm p ≡ (w', gives (pl, false, cm'))
      → (w' ≡ w) × (state : SambaContainerConfig) × (p ≡ gives (pl, (false, state)))
  unfolding update_planned
  unchanged_planned w w' cm cm' pl (errs e) h = cc
  unchanged_planned w w' cm cm' pl crashes h = cc
  unchanged_planned w w' cm cm' pl (gives (pl', (false, state))) h = (cc, state, cc)
  unchanged_planned w w' cm cm' pl (gives (pl', (true, state))) h =
      let (cm₁, put, same) =
        write_map-gives client cfg group_of codec w w' (λ cm'. (pl', true, cm'))
          (set_container_config codec cm state) (pl, false, cm') h in
      cc same

  -- What holds where a call left the config map as it is.
  pub record Current (w : W) (cm : ConfigMap) (s : SmbShare) (pl : Planner) : Type 0 where
    pub state : SambaContainerConfig
    pub decoded : get_container_config codec cm ≡ gives state
    pub admitted : admit client w cfg group_of cm.metadata.owner_references s ≡ gives pl
    pub settled : Settled pl state

  -- A call that reports no change wrote nothing, and the configuration that is stored holds all
  -- that the resources ask for.
  pub update_configuration_unchanged :
      (w w' : W) (cm cm' : ConfigMap) (s : SmbShare) (pl : Planner)
      → update_configuration client cfg group_of codec w cm s ≡ (w', gives (pl, false, cm'))
      → (w' ≡ w) × Current w cm s pl
  unfolding update_configuration
  update_configuration_unchanged w w' cm cm' s pl h =
      let (same, state, plan) =
        unchanged_planned w w' cm cm' pl (plan_configuration client w cfg group_of codec cm s) h in
      let (before, decoded, admitted, updated) =
        planned client cfg group_of codec w cm s pl (false, state) plan in
      (
        same,
        record {
          state = before;
          decoded = decoded;
          admitted = admitted;
          settled = ((update_unchanged_iff pl before state).0 updated).0;
        },
      )

  plan_kept :
      (w : W) (cm : ConfigMap) (s : SmbShare) (pl : Planner) (c : Current w cm s pl)
      → plan_configuration client w cfg group_of codec cm s ≡ gives (pl, (false, c.state))
  plan_kept w cm s pl c =
      plan_of client cfg group_of codec w cm s pl c.state (false, c.state) c.decoded c.admitted
        ((update_unchanged_iff pl c.state c.state).1 (c.settled, refl))

  -- A call writes nothing where the configuration that is stored holds all that is asked for.
  pub update_configuration_kept :
      (w : W) (cm : ConfigMap) (s : SmbShare) (pl : Planner)
      → Current w cm s pl
      → update_configuration client cfg group_of codec w cm s ≡ (w, gives (pl, false, cm))
  update_configuration_kept w cm s pl c =
      unchanged_of_plan client cfg group_of codec w cm s pl c.state (plan_kept w cm s pl c)
