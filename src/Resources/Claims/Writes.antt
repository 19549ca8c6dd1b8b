-- ===== src/Resources/Claims/Writes.antt =====
-- Claims and the finalizer are written once.
use samba_operator.Base.{
  refl, Bool, true, false, Option, none, some, List, String, inl, inr, if◌then◌else◌,
}
use samba_operator.Api.Meta.{OwnerReference}
use samba_operator.Api.SmbShare.{SmbShare}
use samba_operator.Resources.Outcome.{Error}
use samba_operator.Resources.Kube.{Client, Runtime}
use samba_operator.Resources.Once.{Changes}
use samba_operator.Resources.Claims.{
  claimed, claim_with, claim_ownership, add_finalizer, share_finalizer,
}

module _ {W : Type 0} (V : W → W → Type 0) (w : W) where
  -- An object that was written, whatever the answer.
  pub wrote-Changes :
      {A : Type 0} (obj : A) (r : W × Option Error) → V w r.0 → Changes V w (r.0, obj, true, r.1)
  wrote-Changes obj (w', none) h = inr h
  wrote-Changes obj (w', some e) h = inr h

  module _ {A : Type 0} (update : W → A → W × Option Error) (owners : A → List OwnerReference)
      (set_owners : A → List OwnerReference → A) (updates : (obj : A) → V w (update w obj).0) where
    claim_with-Changes :
        (obj : A) (refs : Option (Option (List OwnerReference)))
        → Changes V w (claim_with update owners set_owners w obj refs)
    unfolding claim_with
    claim_with-Changes obj none = inl refl
    claim_with-Changes obj (some none) = refl
    claim_with-Changes obj (some (some refs)) =
        wrote-Changes (set_owners obj refs) (update w (set_owners obj refs))
          (updates (set_owners obj refs))

    pub claim_ownership-Changes :
        (group_of : String → Option String) (s : SmbShare) (obj : A)
        → Changes V w (claim_ownership update owners set_owners group_of w s obj)
    unfolding claim_ownership
    claim_ownership-Changes group_of s obj =
        claim_with-Changes obj (claimed group_of s (owners obj))

  module _ (runtime : Runtime) (client : Client W)
      (updates : (s : SmbShare) → V w (client.shares.update w s).0) where
    either-Changes :
        (b : Bool) (s s' : SmbShare) (r : W × Option Error)
        → V w r.0
        → Changes V w (if b then (w, s, false, none) else (r.0, s', true, r.1))
    either-Changes true s s' r h = refl
    either-Changes false s s' r h = wrote-Changes s' r h

    pub add_finalizer-Changes : (s : SmbShare) → Changes V w (add_finalizer runtime client w s)
    unfolding add_finalizer
    add_finalizer-Changes s =
        either-Changes (runtime.contains_finalizer s share_finalizer) s
          (runtime.add_finalizer s share_finalizer)
          (client.shares.update w (runtime.add_finalizer s share_finalizer))
          (updates (runtime.add_finalizer s share_finalizer))
