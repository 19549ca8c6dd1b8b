-- ===== src/Resources/ConfigMaps/Stored.antt =====
-- What is stored in a config map is read back, and a second `updateConfiguration` writes nothing.
use samba_operator.Base.{
  String, ◌≡◌, refl, sym, ap, subst, ◌∙◌, true, false, Option, none, some, arith,
}
use samba_operator.Base.Dict.{Dict, lookup-insert_self, NodupKeys}
use samba_operator.Base.Panics.{returns}
use samba_operator.Api.SmbShare.{SmbShare}
use samba_operator.Conf.{OperatorConfig}
use samba_operator.Smbcc.{SambaContainerConfig}
use samba_operator.Planner.Instance.{Planner}
use samba_operator.Planner.Configuration.{Change, update, custom_options}
use samba_operator.Planner.Configuration.ShareOptions.{NoConflict}
use samba_operator.Planner.Configuration.Steps.{common_options}
use samba_operator.Planner.Configuration.Converges.{update_converges}
use samba_operator.Resources.Outcome.{Error, failed}
use samba_operator.Resources.Kube.{Client, Codec, CodecLaws, ConfigMap}
use samba_operator.Resources.Attempt.{
  Attempt, gives, errs, crashes, of_run, or_error, >>=-eq-gives, of_run-eq-gives, or_error-eq-gives,
}
use samba_operator.Resources.ConfigMaps.{
  config_json_key, stored_text, decode, get_container_config, put_text, set_container_config, admit,
  plan_configuration, update_planned, update_configuration, write_map, written,
}

module _ (codec : Codec) (laws : CodecLaws codec) where
  put_text-stored :
      (cm cm' : ConfigMap) (text : String) (o : Option (Dict String))
      → cm.entries ≡ o
      → put_text cm text ≡ gives cm'
      → (stored_text cm' ≡ some text) × (cm'.metadata ≡ cm.metadata)
  unfolding put_text
  put_text-stored cm cm' text none e h = ground arith
  put_text-stored cm cm' text (some m) e h =
      ground (arith, lookup-insert_self config_json_key text m)

  decode-stored :
      (o : Option String) (text : String) (state : SambaContainerConfig)
      → o ≡ some text
      → codec.unmarshal text ≡ some state
      → decode codec o ≡ gives state
  unfolding decode
  decode-stored o text state e h = rw e (rw h refl)

  -- The configuration that was put into a config map is the one that is read from it; the metadata
  -- of the map stays as it is.
  pub get_set_container_config :
      (cm cm' : ConfigMap) (state : SambaContainerConfig)
      → set_container_config codec cm state ≡ gives cm'
      → (get_container_config codec cm' ≡ gives state) × (cm'.metadata ≡ cm.metadata)
  unfolding set_container_config get_container_config
  get_set_container_config cm cm' state h =
      let (text, marshalled, put) =
        >>=-eq-gives (or_error (failed "json: unsupported value") (codec.marshal state))
          (put_text cm) h in
      let (stored, same) = put_text-stored cm cm' text cm.entries refl put in
      (
        decode-stored (stored_text cm') text state stored (
            laws.unmarshal-marshal state text (
              or_error-eq-gives (failed "json: unsupported value") (codec.marshal state)
                marshalled)),
        same,
      )

written-gives : {A : Type 0} (a b : A) (e : Option Error) → written a e ≡ gives b → a ≡ b
unfolding written
written-gives a b none h = cc
written-gives a b (some e) h = cc

module _ {W : Type 0} (client : Client W) (cfg : OperatorConfig) (group_of : String → Option String)
    (codec : Codec) where
  pub write_map-gives :
      {A : Type 0} (w w' : W) (f : ConfigMap → A) (m : Attempt ConfigMap) (a : A)
      → write_map client w f m ≡ (w', gives a)
      → (cm' : ConfigMap) × (m ≡ gives cm') × (f cm' ≡ a)
  unfolding write_map
  write_map-gives w w' f (gives cm) a h =
      (cm, refl, written-gives (f cm) a (client.config_maps.update w cm).1 (ap (λ p. p.1) h))
  write_map-gives w w' f (errs e) a h = cc
  write_map-gives w w' f crashes a h = cc

  -- What a call that wrote the config map did.
  pub record Wrote (w : W) (cm : ConfigMap) (s : SmbShare) (pl : Planner) (cm' : ConfigMap)
      : Type 0 where
    pub before : SambaContainerConfig
    pub after : SambaContainerConfig
    pub decoded : get_container_config codec cm ≡ gives before
    pub admitted : admit client w cfg group_of cm.metadata.owner_references s ≡ gives pl
    pub updated : update pl before ≡ returns (true, after)
    pub put : set_container_config codec cm after ≡ gives cm'

  pub planned :
      (w : W) (cm : ConfigMap) (s : SmbShare) (pl : Planner) (r : Change)
      → plan_configuration client w cfg group_of codec cm s ≡ gives (pl, r)
      → (before : SambaContainerConfig) × (get_container_config codec cm ≡ gives before)
        × (admit client w cfg group_of cm.metadata.owner_references s ≡ gives pl)
        × (update pl before ≡ returns r)
  unfolding plan_configuration
  planned w cm s pl r h =
      let (before, decoded, rest) = >>=-eq-gives (get_container_config codec cm) _ h in
      let (pl', admitted, rest') =
        >>=-eq-gives (admit client w cfg group_of cm.metadata.owner_references s) _ rest in
      let (r', ran, e) = >>=-eq-gives (of_run (update pl' before)) (λ r. gives (pl', r)) rest' in
      let same : pl' ≡ pl = cc e in
      let same_r : r' ≡ r = cc e in
      (
        before,
        decoded,
        subst (λ p. admit client w cfg group_of cm.metadata.owner_references s ≡ gives p) same
            admitted,
        subst (λ p. update p before ≡ returns r) same
            (subst (λ q. update pl' before ≡ returns q) same_r
              (of_run-eq-gives (update pl' before) ran)),
      )

  Wrote-planned :
      (w w' : W) (cm : ConfigMap) (s : SmbShare) (pl : Planner) (cm' : ConfigMap)
      (p : Attempt (Planner × Change))
      → plan_configuration client w cfg group_of codec cm s ≡ p
      → update_planned client codec w cm p ≡ (w', gives (pl, true, cm'))
      → Wrote w cm s pl cm'
  unfolding update_planned
  Wrote-planned w w' cm s pl cm' (errs e) e' h = cc
  Wrote-planned w w' cm s pl cm' crashes e' h = cc
  Wrote-planned w w' cm s pl cm' (gives (pl', (false, state))) e' h = cc
  Wrote-planned w w' cm s pl cm' (gives (pl', (true, state))) e' h =
      let (cm₁, put, same) =
        write_map-gives w w' (λ cm'. (pl', true, cm')) (set_container_config codec cm state)
          (pl, true, cm') h in
      let same_pl : pl' ≡ pl = cc same in
      let same_cm : cm₁ ≡ cm' = cc same in
      let (before, decoded, admitted, updated) = planned w cm s pl' (true, state) e' in
      record {
        before = before;
        after = state;
        decoded = decoded;
        admitted =
            subst (λ p. admit client w cfg group_of cm.metadata.owner_references s ≡ gives p)
              same_pl admitted;
        updated = subst (λ p. update p before ≡ returns (true, state)) same_pl updated;
        put = put ∙ ap (λ m. gives m) same_cm;
      }

  pub wrote :
      (w w' : W) (cm : ConfigMap) (s : SmbShare) (pl : Planner) (cm' : ConfigMap)
      → update_configuration client cfg group_of codec w cm s ≡ (w', gives (pl, true, cm'))
      → Wrote w cm s pl cm'
  unfolding update_configuration
  wrote w w' cm s pl cm' h =
      Wrote-planned w w' cm s pl cm' (plan_configuration client w cfg group_of codec cm s) refl h

  pub plan_of :
      (w : W) (cm : ConfigMap) (s : SmbShare) (pl : Planner) (state : SambaContainerConfig)
      (r : Change)
      → get_container_config codec cm ≡ gives state
      → admit client w cfg group_of cm.metadata.owner_references s ≡ gives pl
      → update pl state ≡ returns r
      → plan_configuration client w cfg group_of codec cm s ≡ gives (pl, r)
  unfolding plan_configuration
  plan_of w cm s pl state r decoded admitted updated = rw decoded (rw admitted (rw updated refl))

  pub unchanged_of_plan :
      (w : W) (cm : ConfigMap) (s : SmbShare) (pl : Planner) (state : SambaContainerConfig)
      → plan_configuration client w cfg group_of codec cm s ≡ gives (pl, (false, state))
      → update_configuration client cfg group_of codec w cm s ≡ (w, gives (pl, false, cm))
  unfolding update_configuration update_planned
  unchanged_of_plan w cm s pl state h = ap (update_planned client codec w cm) h

  -- After a call that wrote the config map, a call on what it wrote, for the same planner, finds
  -- nothing to do and writes nothing, whatever the cluster is by then. The custom options agree
  -- with the fields of the share and list no option twice.
  pub update_configuration_converges :
      (w w' w'' : W) (cm cm' : ConfigMap) (s : SmbShare) (pl : Planner)
      → CodecLaws codec
      → NodupKeys (custom_options pl.smb_share.spec)
      → NodupKeys (common_options pl)
      → NoConflict pl.smb_share.spec
      → update_configuration client cfg group_of codec w cm s ≡ (w', gives (pl, true, cm'))
      → admit client w'' cfg group_of cm.metadata.owner_references s ≡ gives pl
      → update_configuration client cfg group_of codec w'' cm' s ≡ (w'', gives (pl, false, cm'))
  update_configuration_converges w w' w'' cm cm' s pl laws us ug n h again =
      let did = wrote w w' cm s pl cm' h in
      let (read, same) = get_set_container_config codec laws cm cm' did.after did.put in
      unchanged_of_plan w'' cm' s pl did.after (
        plan_of w'' cm' s pl did.after (false, did.after) read
          (subst (λ m. admit client w'' cfg group_of m.owner_references s ≡ gives pl) (sym same)
            again)
          (update_converges pl did.before (true, did.after) us ug n did.updated))

  wrote_of_put :
      (w w' : W) (cm cm' : ConfigMap) (pl : Planner) (state : SambaContainerConfig)
      → set_container_config codec cm state ≡ gives cm'
      → client.config_maps.update w cm' ≡ (w', none)
      → update_planned client codec w cm (gives (pl, (true, state))) ≡ (w', gives (pl, true, cm'))
  unfolding update_planned write_map written
  wrote_of_put w w' cm cm' pl state put sent = rw put (rw sent refl)

  pub wrote_of_plan :
      (w w' : W) (cm cm' : ConfigMap) (s : SmbShare) (pl : Planner) (state : SambaContainerConfig)
      → plan_configuration client w cfg group_of codec cm s ≡ gives (pl, (true, state))
      → set_container_config codec cm state ≡ gives cm'
      → client.config_maps.update w cm' ≡ (w', none)
      → update_configuration client cfg group_of codec w cm s ≡ (w', gives (pl, true, cm'))
  unfolding update_configuration
  wrote_of_plan w w' cm cm' s pl state plan put sent =
      ap (update_planned client codec w cm) plan ∙ wrote_of_put w w' cm cm' pl state put sent
