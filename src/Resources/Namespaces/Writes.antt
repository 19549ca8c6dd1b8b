-- ===== src/Resources/Namespaces/Writes.antt =====
-- The labels are written once.
use samba_operator.Base.{refl, Bool, true, false, Option, none, some, inl, inr, if◌then◌else◌}
use samba_operator.Base.Panics.{Run, returns, panics}
use samba_operator.Api.SmbShare.{SmbShare}
use samba_operator.Resources.Outcome.{Error}
use samba_operator.Resources.Kube.{Reply, got, refused}
use samba_operator.Resources.Attempt.{Attempt, gives}
use samba_operator.Resources.Objects.{Namespace}
use samba_operator.Resources.Platform.{Platform}
use samba_operator.Resources.Getters.{object_key}
use samba_operator.Resources.Once.{Answers}
use samba_operator.Resources.Namespaces.{
  has_namespace_labels, add_namespace_labels, wanted_namespace, written_namespace, write_namespace,
  label_namespace, get_or_update_namespace_of,
}

module _ {W : Type 0} (V : W → W → Type 0) (p : Platform W) (w : W)
    (updates : (ns : Namespace) → V w (p.namespaces.update w ns).0) where
  written_namespace-Answers :
      (ns : Namespace) (r : W × Option Error) → V w r.0 → Answers V w (written_namespace p ns r)
  unfolding written_namespace
  written_namespace-Answers ns (w', none) h = inr h
  written_namespace-Answers ns (w', some e) h = inr h

  write_namespace-Answers : (want : Run Namespace) → Answers V w (write_namespace p w want)
  unfolding write_namespace
  write_namespace-Answers panics = inl refl
  write_namespace-Answers (returns ns) =
      written_namespace-Answers ns (p.namespaces.update w ns) (updates ns)

  either-Answers :
      (b : Bool) (ns : Namespace) (r : W × Attempt (Bool × Namespace))
      → Answers V w r
      → Answers V w (if b then (w, gives (false, ns)) else r)
  either-Answers true ns r h = refl
  either-Answers false ns r h = h

  label_namespace-Answers :
      (s : SmbShare) (r : Reply Namespace) → Answers V w (label_namespace p w s r)
  unfolding label_namespace
  label_namespace-Answers s (refused e) = inl refl
  label_namespace-Answers s (got ns) =
      either-Answers (has_namespace_labels ns) ns _
        (write_namespace-Answers (add_namespace_labels (wanted_namespace s ns)))

  pub get_or_update_namespace_of-Answers :
      (s : SmbShare) → Answers V w (get_or_update_namespace_of p w s)
  unfolding get_or_update_namespace_of
  get_or_update_namespace_of-Answers s =
      label_namespace-Answers s (p.namespaces.get w (object_key "" s.metadata.namespace))
