-- ===== src/Resources/Reconcile/InPlace.antt =====
-- internal/resources/smbshare.go: what is in place for a share, where `Update` has nothing left to do.
use samba_operator.Base.{◌≡◌, refl, sym, subst, Bool, true, false, if◌then◌else◌}
use samba_operator.Base.Panics.{returns}
use samba_operator.Api.SmbShare.{SmbShare}
use samba_operator.Conf.{OperatorConfig}
use samba_operator.Planner.Instance.{Planner}
use samba_operator.Resources.Outcome.{done}
use samba_operator.Resources.Claims.{share_finalizer}
use samba_operator.Resources.ServerGroup.{keep, plan_group}
use samba_operator.Resources.Backend.{backend_of, wanted_backend}
use samba_operator.Resources.Sizes.{share_needs_pvc}
use samba_operator.Resources.Manager.{update_config_map}
use samba_operator.Resources.Manager.Proceeds.{Proceeds, update_config_map-Proceeds}
use samba_operator.Resources.Platform.{Platform}
use samba_operator.Resources.Refusing.{Refusing}
use samba_operator.Resources.Grants.Held.{ForOpenShift, update_for_openshift-Reads}
use samba_operator.Resources.Servers.{update_pvc}
use samba_operator.Resources.Servers.Running.{Kept, Stored, update_pvc-Reads}
use samba_operator.Resources.Step.{
  Reads, Reads-kept, Reads-next, Reads-weaken, Reads-go, after_change, pass, finished,
  Reads-finished,
}
use samba_operator.Resources.Reconcile.Steps.{
  add_finalizer-Reads, set_server_group-Reads, with_planner-Reads, settle_backend-Reads,
}
use samba_operator.Resources.Reconcile.{server_steps, backed_steps, update_share}
use samba_operator.Resources.Reconcile.Running.{Running, server_steps-Reads}

module _ {W : Type 0} (p : Platform W) (refusing : Refusing p) (w : W) where
  -- The volume claim of a share that defines one exists, and the share has its name.
  abbrev pub HasStorage : SmbShare → SmbShare → Type 0
  HasStorage s s' =
      (share_needs_pvc s ≡ true → Stored p w s s') × (share_needs_pvc s ≡ false → s' ≡ s)

  storage_by :
      (cfg : OperatorConfig) (s : SmbShare) (b : Bool)
      → share_needs_pvc s ≡ b
      → Reads w (Kept p w cfg (HasStorage s)) ((if b then update_pvc p s else pass s) w cfg)
  storage_by cfg s true e =
      Reads-weaken (Kept p w cfg (Stored p w s)) (Kept p w cfg (HasStorage s)) w
        (update_pvc p s w cfg) (λ c a (same, has). (same, (λ h. has, λ h. cc (h, e))))
        (update_pvc-Reads p w cfg s)
  storage_by cfg s false e =
      Reads-go w cfg s (Kept p w cfg (HasStorage s)) (refl, (λ h. cc (h, e), λ h. refl))

  -- What is in place for a share, the cluster and the settings being as they are: the share has our
  -- finalizer and a group; on OpenShift its grants exist; the group's config map holds what the
  -- resources ask for; the volume claim exists where the share defines one; the recorded backend is
  -- that of the availability mode; and what runs the server exists. `shared` and `stored` are the
  -- share in memory, with the annotation for OpenShift and with the name of its claim.
  pub record InPlace (s : SmbShare) (cfg cfg' : OperatorConfig) : Type 0 where
    pub held : p.runtime.contains_finalizer s share_finalizer ≡ true
    pub shared : SmbShare
    pub for_open_shift : ForOpenShift p w s cfg cfg' shared
    pub grouped : plan_group shared ≡ keep
    pub planner : Planner
    pub proceeds : Proceeds p.client p.runtime cfg' p.codec w shared planner
    pub stored : SmbShare
    pub storage : HasStorage shared stored
    pub recorded : backend_of stored ≡ wanted_backend (record planner { smb_share = stored })
    pub running : Running p refusing w cfg' (record planner { smb_share = stored })

  abbrev InPlaceFor : SmbShare → OperatorConfig → OperatorConfig → Unit {0} → Type 0
  InPlaceFor s cfg c a = InPlace s cfg c

  module _ (cfg : OperatorConfig) where
    backed-Reads :
        (s : SmbShare) (cfg₀ : OperatorConfig) (shared : SmbShare)
        → p.runtime.contains_finalizer s share_finalizer ≡ true
        → ForOpenShift p w s cfg₀ cfg shared
        → plan_group shared ≡ keep
        → (planner : Planner) → Proceeds p.client p.runtime cfg p.codec w shared planner
        → Reads w (InPlaceFor s cfg₀) (backed_steps p shared planner w cfg)
    unfolding backed_steps
    backed-Reads s cfg₀ shared held typed grouped planner proceeds =
        Reads-kept w cfg (HasStorage shared) (InPlaceFor s cfg₀) _ _
          (storage_by cfg shared (share_needs_pvc shared) refl)
          (λ stored storage.
            let pl = record planner { smb_share = stored } in
            Reads-kept w cfg (λ pl'. (pl' ≡ pl) × (backend_of stored ≡ wanted_backend pl))
              (InPlaceFor s cfg₀) _ _ (settle_backend-Reads p w cfg pl)
              (λ pl' (same, recorded).
                Reads-weaken (Kept p w cfg (λ a. Running p refusing w cfg pl')) (InPlaceFor s cfg₀)
                  w (server_steps p pl' w cfg)
                  (λ c a (settings, running).
                    subst (λ c'. InPlace s cfg₀ c') (sym settings)
                      (record {
                        held = held;
                        shared = shared;
                        for_open_shift = typed;
                        grouped = grouped;
                        planner = planner;
                        proceeds = proceeds;
                        stored = stored;
                        storage = storage;
                        recorded = recorded;
                        running = subst (λ q. Running p refusing w cfg q) same running;
                      }))
                  (server_steps-Reads p refusing w cfg pl')))

  pub update_share-Reads :
      (cfg : OperatorConfig) (s : SmbShare) → Reads w (InPlaceFor s cfg) (update_share p s w cfg)
  unfolding update_share after_change
  update_share-Reads cfg s =
      let R = InPlaceFor s cfg in
      Reads-kept w cfg (λ s'. (s' ≡ s) × (p.runtime.contains_finalizer s share_finalizer ≡ true)) R
        _ _ (add_finalizer-Reads p w cfg s)
        (λ s₁ (same₁, held).
          Reads-next w (ForOpenShift p w s₁ cfg) R _ _
            (update_for_openshift-Reads p w refusing s₁ cfg)
            (λ cfg₁ s₂ typed.
              Reads-kept w cfg₁ (λ s'. (s' ≡ s₂) × (plan_group s₂ ≡ keep)) R _ _
                (set_server_group-Reads p w cfg₁ s₂)
                (λ s₃ (same₃, grouped).
                  Reads-kept w cfg₁ (Proceeds p.client p.runtime cfg₁ p.codec w s₃) R _ _
                    (with_planner-Reads p w cfg₁ (Proceeds p.client p.runtime cfg₁ p.codec w s₃)
                      (update_config_map p.client p.runtime cfg₁ p.codec w s₃)
                      (λ w' pl res h.
                        let (still, ended, proceeds) =
                          update_config_map-Proceeds p.client p.runtime cfg₁ p.codec w w' s₃ pl res
                            h in
                        (still, proceeds)))
                    (λ planner proceeds.
                      backed-Reads cfg₁ s cfg s₃ held
                        (subst (λ t. ForOpenShift p w s cfg cfg₁ t) (sym same₃)
                          (subst (λ t. ForOpenShift p w t cfg cfg₁ s₂) same₁ typed))
                        (subst (λ t. plan_group t ≡ keep) (sym same₃) grouped) planner proceeds))))

  -- Where `Update` is done with a share, nothing was written, and all that the share needs is in
  -- place.
  pub update_share-InPlace :
      (w' : W) (cfg cfg' : OperatorConfig) (s : SmbShare)
      → finished (update_share p s w cfg) ≡ (w', cfg', returns done)
      → (w' ≡ w) × InPlace s cfg cfg'
  update_share-InPlace w' cfg cfg' s h =
      let (same, u, placed) =
        Reads-finished (InPlaceFor s cfg) w w' cfg' (update_share p s w cfg)
          (update_share-Reads cfg s) h in
      (same, placed)
