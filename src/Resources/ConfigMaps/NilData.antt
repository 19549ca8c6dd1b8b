-- ===== src/Resources/ConfigMaps/NilData.antt =====
-- A config map whose `Data` is nil.
use samba_operator.Base.{
  String, ◌≡◌, refl, sym, ap, ◌∙◌, Bool, true, false, Option, none, some, Bool-cases, inl, inr,
}
use samba_operator.Base.Dict.{lookup}
use samba_operator.Base.Panics.{returns}
use samba_operator.Api.SmbShare.{SmbShare}
use samba_operator.Conf.{OperatorConfig}
use samba_operator.Smbcc.{SambaContainerConfig, new}
use samba_operator.Planner.Instance.{Planner}
use samba_operator.Planner.Configuration.{Change, update}
use samba_operator.Planner.Configuration.Converges.{update_unchanged_iff}
use samba_operator.Resources.Kube.{Client, Codec, ConfigMap}
use samba_operator.Resources.Attempt.{gives, crashes}
use samba_operator.Resources.ConfigMaps.{
  get_container_config, decode, put_text, set_container_config, admit, update_planned,
  update_configuration, write_map,
}
use samba_operator.Resources.ConfigMaps.Stored.{plan_of}

-- The empty configuration is always changed.
update_new : (pl : Planner) (r : Change) → update pl new ≡ returns r → r.0 ≡ true
unfolding lookup
update_new pl r h = elim (Bool-cases r.0) [
  | inl up ↦ up
  | inr down ↦
      let unchanged : update pl new ≡ returns (false, r.1) =
        h ∙ ap (λ (b : Bool). returns (b, r.1)) down in
      let (g, found, _) = ((update_unchanged_iff pl new r.1).0 unchanged).0.globals in cc found
]

module _ {W : Type 0} (client : Client W) (cfg : OperatorConfig) (group_of : String → Option String)
    (codec : Codec) where
  get-nil : (cm : ConfigMap) → cm.entries ≡ none → get_container_config codec cm ≡ gives new
  unfolding get_container_config decode
  get-nil cm h = rw h refl

  set-nil :
      (cm : ConfigMap) (state : SambaContainerConfig) (text : String)
      → cm.entries ≡ none
      → codec.marshal state ≡ some text
      → set_container_config codec cm state ≡ crashes
  unfolding set_container_config put_text
  set-nil cm state text h m = rw m (rw h refl)

  planned-nil :
      (w : W) (cm : ConfigMap) (pl : Planner) (state : SambaContainerConfig)
      → set_container_config codec cm state ≡ crashes
      → (update_planned client codec w cm (gives (pl, (true, state)))).1 ≡ crashes
  unfolding update_planned write_map
  planned-nil w cm pl state h = rw h refl

  -- Where the data of the config map is a nil map, the share may use the map, `Update` of the empty
  -- configuration returns for the share's planner and what it returns encodes,
  -- `updateConfiguration` panics at the assignment to that nil map.
  pub update_configuration_nil :
      (w : W) (cm : ConfigMap) (s : SmbShare) (pl : Planner) (r : Change) (text : String)
      → cm.entries ≡ none
      → admit client w cfg group_of cm.metadata.owner_references s ≡ gives pl
      → update pl new ≡ returns r
      → codec.marshal r.1 ≡ some text
      → (update_configuration client cfg group_of codec w cm s).1 ≡ crashes
  unfolding update_configuration
  update_configuration_nil w cm s pl r text missing admitted updated marshalled =
      let up : (true, r.1) ≡ r = ap (λ (b : Bool). (b, r.1)) (sym (update_new pl r updated)) in
      ap (λ p. (update_planned client codec w cm p).1)
        (plan_of client cfg group_of codec w cm s pl new (true, r.1) (get-nil cm missing) admitted
          (updated ∙ ap (λ q. returns q) (sym up)))
      ∙ planned-nil w cm pl r.1 (set-nil cm r.1 text missing marshalled)
