-- ===== src/Resources/Namespaces.antt =====
-- internal/resources/openshift.go: the labels of a share's namespace on OpenShift.
pub mod Labelled
pub mod Read
pub mod Writes
use samba_operator.Base.{
  String, ◌==◌, ◌!=◌, Bool, true, false, Option, none, some, List, [], ◌∷◌, if◌then◌else◌,
}
use samba_operator.Base.Dict.{Dict, lookup, insert}
use samba_operator.Base.Panics.{Run, returns, panics}
use samba_operator.Api.SmbShare.{SmbShare}
use samba_operator.Resources.Outcome.{Error}
use samba_operator.Resources.Kube.{Reply, got, refused}
use samba_operator.Resources.Attempt.{Attempt, gives, errs, crashes}
use samba_operator.Resources.Objects.{Namespace}
use samba_operator.Resources.Platform.{Platform}
use samba_operator.Resources.Getters.{object_key}

abbrev pub namespace_labels : Dict String
namespace_labels =
    ("openshift.io/cluster-monitoring", "true")
    ∷ ("pod-security.kubernetes.io/enforce", "privileged")
    ∷ ("pod-security.kubernetes.io/audit", "privileged")
    ∷ ("pod-security.kubernetes.io/warn", "privileged")
    ∷ ("security.openshift.io/scc.podSecurityLabelSync", "false")
    ∷ []

-- One round of the loop: a missing label and one of another value end it.
unfoldable pub has_label : Option String → String → Bool → Bool
has_label none v rest = false
has_label (some c) v rest = if c != v then false else rest

unfoldable pub has_labels : Dict String → Dict String → Bool
unfolding has_label lookup
has_labels [] labels = true
has_labels ((k, v) ∷ want) labels = has_label (lookup k labels) v (has_labels want labels)

-- A nil map reads as one without entries.
abbrev pub or_empty : Option (Dict String) → Dict String
or_empty none = []
or_empty (some labels) = labels

unfoldable pub has_namespace_labels : Namespace → Bool
unfolding has_labels
has_namespace_labels ns = has_labels namespace_labels (or_empty ns.labels)

unfoldable pub put_labels : Dict String → Dict String → Dict String
unfolding insert
put_labels [] labels = labels
put_labels ((k, v) ∷ want) labels = put_labels want (insert k v labels)

-- A write to a nil map panics.
put_all : Namespace → Option (Dict String) → Run Namespace
unfolding put_labels
put_all ns none = panics
put_all ns (some labels) =
    returns (record ns { labels = some (put_labels namespace_labels labels) })

unfoldable pub add_namespace_labels : Namespace → Run Namespace
unfolding put_all
add_namespace_labels ns = put_all ns ns.labels

-- Of what was read, the name, the labels and the spec are kept.
abbrev pub wanted_namespace : SmbShare → Namespace → Namespace
wanted_namespace s ns = record {
  name = s.metadata.namespace;
  labels = ns.labels;
  annotations = [];
  spec = ns.spec;
}

module _ {W : Type 0} (p : Platform W) where
  written_namespace : Namespace → W × Option Error → W × Attempt (Bool × Namespace)
  written_namespace ns (w, none) = (w, gives (true, ns))
  written_namespace ns (w, some e) = (w, errs e)

  write_namespace : W → Run Namespace → W × Attempt (Bool × Namespace)
  unfolding written_namespace
  write_namespace w panics = (w, crashes)
  write_namespace w (returns ns) = written_namespace ns (p.namespaces.update w ns)

  unfoldable pub label_namespace : W → SmbShare → Reply Namespace → W × Attempt (Bool × Namespace)
  unfolding write_namespace has_namespace_labels add_namespace_labels
  label_namespace w s (refused e) = (w, errs e)
  label_namespace w s (got ns) =
      if has_namespace_labels ns
      then (w, gives (false, ns))
      else write_namespace w (add_namespace_labels (wanted_namespace s ns))

  -- The flag says whether the namespace was written.
  unfoldable pub get_or_update_namespace_of : W → SmbShare → W × Attempt (Bool × Namespace)
  unfolding label_namespace
  get_or_update_namespace_of w s =
      label_namespace w s (p.namespaces.get w (object_key "" s.metadata.namespace))
