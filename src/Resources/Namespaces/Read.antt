-- ===== src/Resources/Namespaces/Read.antt =====
-- What `getOrUpdateNamespaceOf` has read, where it has written nothing.
use samba_operator.Base.{◌≡◌, refl, true, Option, none, some, Bool-cases, inl, inr}
use samba_operator.Base.Panics.{Run, returns, panics}
use samba_operator.Api.SmbShare.{SmbShare}
use samba_operator.Conf.{OperatorConfig}
use samba_operator.Resources.Outcome.{Error}
use samba_operator.Resources.Kube.{Reply, got, refused}
use samba_operator.Resources.Objects.{Namespace}
use samba_operator.Resources.Platform.{Platform}
use samba_operator.Resources.Step.{Reads, after_attempt}
use samba_operator.Resources.Getters.{object_key}
use samba_operator.Resources.Namespaces.{
  has_namespace_labels, add_namespace_labels, wanted_namespace, written_namespace, write_namespace,
  label_namespace, get_or_update_namespace_of,
}

module _ {W : Type 0} (p : Platform W) (w : W) where
  module _ (cfg : OperatorConfig) where
    written-Reads :
        (ns : Namespace) (Q : Namespace → Type 0) (r : W × Option Error)
        → Reads w (λ c a. Q a) (after_attempt cfg (written_namespace p ns r))
    unfolding written_namespace after_attempt
    written-Reads ns Q (w', none) = refl
    written-Reads ns Q (w', some e) = refl

    write-Reads :
        (Q : Namespace → Type 0) (r : Run Namespace)
        → Reads w (λ c a. Q a) (after_attempt cfg (write_namespace p w r))
    unfolding write_namespace after_attempt
    write-Reads Q panics = tt
    write-Reads Q (returns ns) = written-Reads ns Q (p.namespaces.update w ns)

    label-Reads :
        (s : SmbShare) (reply : Reply Namespace)
        → Reads w
            (λ c ns. (reply ≡ got ns) × (has_namespace_labels ns ≡ true))
            (after_attempt cfg (label_namespace p w s reply))
    unfolding label_namespace after_attempt
    label-Reads s (refused e) = refl
    label-Reads s (got old) = elim (Bool-cases (has_namespace_labels old)) [
      | inl has ↦ rw has (refl, (refl, has))
      | inr lacks ↦ rw lacks (
          write-Reads (λ ns. (got old ≡ got ns) × (has_namespace_labels ns ≡ true))
            (add_namespace_labels (wanted_namespace s old)))
    ]

    pub get_or_update_namespace_of-Reads :
        (s : SmbShare)
        → Reads w
            (λ c ns.
              (p.namespaces.get w (object_key "" s.metadata.namespace) ≡ got ns)
              × (has_namespace_labels ns ≡ true))
            (after_attempt cfg (get_or_update_namespace_of p w s))
    unfolding get_or_update_namespace_of
    get_or_update_namespace_of-Reads s =
        label-Reads s (p.namespaces.get w (object_key "" s.metadata.namespace))
