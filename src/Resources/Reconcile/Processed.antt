-- ===== src/Resources/Reconcile/Processed.antt =====
-- internal/resources/smbshare.go: how `Process` ends.
use samba_operator.Base.{◌≡◌, refl, ◌⊎◌, inl, inr, Bool, true, false, is_some}
use samba_operator.Base.Panics.{returns}
use samba_operator.Api.Meta.{NamespacedName}
use samba_operator.Api.SmbShare.{SmbShare}
use samba_operator.Conf.{OperatorConfig}
use samba_operator.Resources.Outcome.{not_found, failed, done}
use samba_operator.Resources.Kube.{Reply, got, refused}
use samba_operator.Resources.Claims.{share_finalizer}
use samba_operator.Resources.Platform.{Platform}
use samba_operator.Resources.Refusing.{Refusing}
use samba_operator.Resources.Step.{finished}
use samba_operator.Resources.Reconcile.{process, process_reply, process_found}
use samba_operator.Resources.Reconcile.InPlace.{InPlace, update_share-InPlace}
use samba_operator.Resources.Reconcile.Cleared.{Finished, finalize-Cleared}

module _ {W : Type 0} (p : Platform W) (refusing : Refusing p) (w : W) where
  abbrev dying : SmbShare → Bool
  dying s = is_some s.metadata.deletion_timestamp

  abbrev held : SmbShare → Bool
  held s = p.runtime.contains_finalizer s share_finalizer

  -- A share that is alive needs nothing. One that is being deleted has lost the finalizer before, or
  -- loses it now.
  abbrev pub Settled : OperatorConfig → SmbShare → W → OperatorConfig → Type 0
  Settled cfg s w' cfg' =
      ((dying s ≡ false) × (w' ≡ w) × InPlace p refusing w s cfg cfg')
      ⊎ ((dying s ≡ true) × (held s ≡ false) × (w' ≡ w))
      ⊎ ((dying s ≡ true) × (held s ≡ true) × Finished p w cfg s w' cfg')

  found_done :
      (cfg cfg' : OperatorConfig) (s : SmbShare) (w' : W) (d f : Bool)
      → dying s ≡ d
      → held s ≡ f
      → finished (process_found p s d f w cfg) ≡ (w', cfg', returns done)
      → Settled cfg s w' cfg'
  unfolding process_found
  found_done cfg cfg' s w' false f e k h =
      let (same, placed) = update_share-InPlace p refusing w w' cfg cfg' s h in
      inl (e, same, placed)
  found_done cfg cfg' s w' true false e k h = inr (inl (e, k, cc h))
  found_done cfg cfg' s w' true true e k h = inr (inr (e, k, finalize-Cleared p w w' cfg cfg' s h))

  reply_done :
      (cfg cfg' : OperatorConfig) (w' : W) (reply : Reply SmbShare)
      → process_reply p w cfg reply ≡ (w', cfg', returns done)
      → ((reply ≡ refused not_found) × (w' ≡ w))
        ⊎ ((s : SmbShare) × (reply ≡ got s) × Settled cfg s w' cfg')
  unfolding process_reply
  reply_done cfg cfg' w' (refused not_found) h = inl (refl, cc h)
  reply_done cfg cfg' w' (refused (failed e)) h = cc
  reply_done cfg cfg' w' (got s) h =
      inr (s, refl, found_done cfg cfg' s w' (dying s) (held s) refl refl h)

  -- Where `Process` is done with a share: the share does not exist, or it is alive, all that it needs
  -- is in place and nothing was written, or it is being deleted without our finalizer, or the only
  -- write took the finalizer off it, as `Finalize` does: the configuration says nothing of it, its
  -- objects are not its to hand over, and on OpenShift each read of what was made for it gave an
  -- error, not found or another. A creation that is refused because the object exists is taken to
  -- leave the cluster as it is.
  pub process-done :
      (cfg cfg' : OperatorConfig) (w' : W) (name : NamespacedName)
      → process p w cfg name ≡ (w', cfg', returns done)
      → ((p.client.shares.get w name ≡ refused not_found) × (w' ≡ w))
        ⊎ ((s : SmbShare) × (p.client.shares.get w name ≡ got s) × Settled cfg s w' cfg')
  unfolding process
  process-done cfg cfg' w' name h = reply_done cfg cfg' w' (p.client.shares.get w name) h
