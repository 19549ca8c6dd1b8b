-- ===== src/Resources/Reconcile/Cleared.antt =====
-- internal/resources/smbshare.go: what holds where `Finalize` takes the finalizer off a share.
use samba_operator.Base.{◌≡◌, refl, sym, ap, subst, ◌==◌, true, Option, none, some, All}
use samba_operator.Base.Panics.{Run, returns}
use samba_operator.Api.SmbShare.{SmbShare}
use samba_operator.Conf.{OperatorConfig, cluster_type_open_shift}
use samba_operator.Resources.Outcome.{Error, Result, done}
use samba_operator.Resources.Claims.{share_finalizer}
use samba_operator.Resources.Sizes.{share_needs_pvc}
use samba_operator.Resources.Manager.{map_key, finalize_config_map}
use samba_operator.Resources.Manager.Finalized
use samba_operator.Resources.Manager.Finalized.{
  finalize_config_map_releases, finalize_config_map_quiet,
}
use samba_operator.Resources.OpenShift.{all_grants}
use samba_operator.Resources.OpenShift.Unread.{Unread}
use samba_operator.Resources.Platform.{Platform, grants_of}
use samba_operator.Resources.Grants.{cluster_typed}
use samba_operator.Resources.Step.{
  Outcome, Reads, Reads-kept, Reads-next, Reads-weaken, go, stop, crash, finished, next,
}
use samba_operator.Resources.Reconcile.{drop_finalizer, released, finalize, after_write}
use samba_operator.Resources.Reconcile.Released.{with_run-Reads}
use samba_operator.Resources.Reconcile.HandedOver.{
  ServerLeft, PvcLeft, finalize_server_resources-Reads, openshift_finalized-Reads, storage_by,
}

module _ {W : Type 0} (p : Platform W) (w : W) where
  -- What holds before the finalizer is taken off: the configuration says nothing of the share, the
  -- objects of its server and its volume claim are not the share's to hand over, and on OpenShift
  -- the read of each object that was made for it gave an error, not found or another.
  pub record Cleared (cfg : OperatorConfig) (s : SmbShare) (cfg' : OperatorConfig) : Type 0 where
    pub map :
        Finalized.Released p.client p.runtime cfg p.codec s (p.client.config_maps.get w (map_key s))
    pub server : ServerLeft p w cfg s
    pub typed : cfg' ≡ cluster_typed p w cfg
    pub unread :
        (cfg'.cluster_type == cluster_type_open_shift) ≡ true
        → All (Unread (grants_of p) s w) (all_grants (grants_of p))
    pub storage : share_needs_pvc s ≡ true → PvcLeft p w s

  abbrev pub ClearedFor : OperatorConfig → SmbShare → OperatorConfig → Unit {0} → Type 0
  ClearedFor cfg s cfg' u = Cleared cfg s cfg'

  released-Reads :
      (cfg : OperatorConfig) (s : SmbShare) → Reads w (ClearedFor cfg s) (released p s w cfg)
  unfolding released
  released-Reads cfg s =
      let R = ClearedFor cfg s in
      let map_released =
        Finalized.Released p.client p.runtime cfg p.codec s
          (p.client.config_maps.get w (map_key s)) in
      Reads-kept w cfg (λ (u : Unit). map_released) R _ _
        (with_run-Reads p w cfg map_released
          (finalize_config_map p.client p.runtime cfg p.codec w s)
          (λ w' res e goes. (
            finalize_config_map_quiet p.client p.runtime cfg p.codec w w' s res e goes,
            finalize_config_map_releases p.client p.runtime cfg p.codec w w' s res e goes,
          )))
        (λ u map.
          Reads-kept w cfg (λ (u : Unit). ServerLeft p w cfg s) R _ _
            (finalize_server_resources-Reads p w cfg s)
            (λ u₁ server.
              Reads-next w _ R _ _ (openshift_finalized-Reads p w cfg s) (λ cfg' u₂ (typed, unread).
                Reads-weaken _ R w _
                  (λ c v (same, left).
                    subst (λ c'. Cleared cfg s c') (sym same)
                      (record {
                        map = map;
                        server = server;
                        typed = typed;
                        unread = unread;
                        storage = left;
                      }))
                  (storage_by p w cfg' s (share_needs_pvc s) refl))))

  -- The outcome of `Finalize` where it is done.
  abbrev pub Finished : OperatorConfig → SmbShare → W → OperatorConfig → Type 0
  Finished cfg s w' cfg' =
      (p.client.shares.update w (p.runtime.remove_finalizer s share_finalizer) ≡ (w', none))
      × Cleared cfg s cfg'

  write_done :
      (cfg : OperatorConfig) (s : SmbShare) (cfg₁ cfg' : OperatorConfig) (w' : W)
      (r : W × Option Error)
      → Cleared cfg s cfg₁
      → finished (after_write cfg₁ r) ≡ (w', cfg', returns done)
      → (r ≡ (w', none)) × Cleared cfg s cfg'
  unfolding after_write
  write_done cfg s cfg₁ cfg' w' (v, none) cleared h = (
    cc h,
    subst (λ c. Cleared cfg s c) (ap (λ (o : W × OperatorConfig × Run Result). o.1) h) cleared,
  )
  write_done cfg s cfg₁ cfg' w' (v, some e) cleared h = cc

  finalize_by :
      (cfg : OperatorConfig) (s : SmbShare) (o : Outcome W Unit) (w' : W) (cfg' : OperatorConfig)
      → Reads w (ClearedFor cfg s) o
      → finished (next o (λ u. drop_finalizer p s)) ≡ (w', cfg', returns done)
      → Finished cfg s w' cfg'
  unfolding drop_finalizer
  finalize_by cfg s (go v cfg₁ u) w' cfg' (same, cleared) h =
      let (wrote, kept) = write_done cfg s cfg₁ cfg' w' _ cleared h in
      (
        subst
            (λ x.
              p.client.shares.update x (p.runtime.remove_finalizer s share_finalizer) ≡ (w', none))
            same wrote,
        kept,
      )
  finalize_by cfg s (stop v cfg₁ r) w' cfg' stops h = cc
  finalize_by cfg s (crash v cfg₁) w' cfg' u h = cc

  -- Where `Finalize` is done with a share, its only write was the one that takes the finalizer off.
  -- Before it, the configuration said nothing of the share, the objects of its server and its volume
  -- claim were not the share's to hand over, and on OpenShift the read of each object that was made
  -- for it gave an error, not found or another, after which the object may still exist.
  pub finalize-Cleared :
      (w' : W) (cfg cfg' : OperatorConfig) (s : SmbShare)
      → finished (finalize p s w cfg) ≡ (w', cfg', returns done)
      → Finished cfg s w' cfg'
  unfolding finalize
  finalize-Cleared w' cfg cfg' s h =
      finalize_by cfg s (released p s w cfg) w' cfg' (released-Reads cfg s) h
