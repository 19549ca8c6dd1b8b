-- ===== src/Resources/Getters/Writes.antt =====
-- internal/resources/getters.go: what is created is created once.
use samba_operator.Base.{refl, Option, none, some, inl, inr, String, [], ◌∷◌}
use samba_operator.Base.Panics.{Run, returns, panics}
use samba_operator.Api.Meta.{ObjectMeta}
use samba_operator.Api.SmbShare.{SmbShare, PersistentVolumeClaimSpec}
use samba_operator.Planner.Instance.{Planner}
use samba_operator.Resources.Outcome.{Error}
use samba_operator.Resources.Kube.{Api, Reply, got, refused}
use samba_operator.Resources.Attempt.{Attempt, gives, errs, crashes}
use samba_operator.Resources.Objects.{PersistentVolumeClaim}
use samba_operator.Resources.Sizes.{pvc_name, shared_state_pvc_name}
use samba_operator.Resources.Platform.{Platform}
use samba_operator.Resources.Once.{Answers}
use samba_operator.Resources.Getters.{
  created, create_owned, create_built, get_or_create, get_existing_pvc, get_or_create_generic_pvc,
  new_pvc, pvc_by_name, pvc_spec, get_or_create_pvc, state_pvc_of_size, get_or_create_state_pvc,
  set_pvc_meta,
}

module _ {W : Type 0} (V : W → W → Type 0) (p : Platform W) (w : W) where
  module _ {A : Type 0} (api : Api W A) (meta : A → ObjectMeta) (set_meta : A → ObjectMeta → A)
      (creates : (obj : A) → V w (api.create w obj).0) where
    created-Answers :
        (obj : A) (r : W × Option Error) → V w r.0 → Answers V w (created p api meta set_meta obj r)
    unfolding created
    created-Answers obj (w', none) h = inr h
    created-Answers obj (w', some e) h = inr h

    create_owned-Answers :
        (obj : A) (m : Option ObjectMeta) → Answers V w (create_owned p api meta set_meta w obj m)
    unfolding create_owned
    create_owned-Answers obj none = inl refl
    create_owned-Answers obj (some m) =
        created-Answers (set_meta obj m) (api.create w (set_meta obj m)) (creates (set_meta obj m))

    create_built-Answers :
        (s : SmbShare) (built : Run A) → Answers V w (create_built p api meta set_meta w s built)
    unfolding create_built
    create_built-Answers s panics = inl refl
    create_built-Answers s (returns obj) =
        create_owned-Answers obj (p.runtime.set_controller_reference s (meta obj))

    pub get_or_create-Answers :
        (s : SmbShare) (built : Run A) (found : Attempt (Option A))
        → Answers V w (get_or_create p api meta set_meta w s built found)
    unfolding get_or_create
    get_or_create-Answers s built (errs e) = inl refl
    get_or_create-Answers s built crashes = inl refl
    get_or_create-Answers s built (gives (some obj)) = refl
    get_or_create-Answers s built (gives none) = create_built-Answers s built

  module _ (creates : (obj : PersistentVolumeClaim) → V w (p.pvcs.create w obj).0) where
    generic_pvc-Answers :
        (s : SmbShare) (spec : Option PersistentVolumeClaimSpec) (name ns : String)
        → Answers V w (get_or_create_generic_pvc p w s spec name ns)
    unfolding get_or_create_generic_pvc
    generic_pvc-Answers s spec name ns =
        get_or_create-Answers p.pvcs (λ d. d.metadata) set_pvc_meta creates s
          (new_pvc p spec name ns) (get_existing_pvc p w name ns)

    named-Answers :
        (s : SmbShare) (spec : Option PersistentVolumeClaimSpec) (ns : String) (name : Run String)
        → Answers V w (pvc_by_name p w s spec ns name)
    unfolding pvc_by_name
    named-Answers s spec ns panics = inl refl
    named-Answers s spec ns (returns name) = generic_pvc-Answers s spec name ns

    pub get_or_create_pvc-Answers :
        (s : SmbShare) (ns : String) → Answers V w (get_or_create_pvc p w s ns)
    unfolding get_or_create_pvc
    get_or_create_pvc-Answers s ns = named-Answers s (pvc_spec p s) ns (pvc_name s)

    sized-Answers :
        (pl : Planner) (ns : String) (quantity : Reply String)
        → Answers V w (state_pvc_of_size p w pl ns quantity)
    unfolding state_pvc_of_size
    sized-Answers pl ns (refused e) = inl refl
    sized-Answers pl ns (got quantity) =
        generic_pvc-Answers pl.smb_share
          (some (record {
            access_modes = "ReadWriteMany" ∷ [];
            storage_request = quantity;
            other = "";
          }))
          (shared_state_pvc_name pl) ns

    pub get_or_create_state_pvc-Answers :
        (pl : Planner) (ns : String) → Answers V w (get_or_create_state_pvc p w pl ns)
    unfolding get_or_create_state_pvc
    get_or_create_state_pvc-Answers pl ns =
        sized-Answers pl ns (p.parse_quantity pl.global_config.state_pvc_size)
