-- ===== src/Resources/Workloads/MetricsSelection.antt =====
-- internal/resources/metrics.go: whom the service for metrics selects.
use samba_operator.Base.{
  String, ◌<>◌, ◌==◌, ◌≡◌, ◌≢◌, refl, ap, ◌∙◌, ◌≤◌, ◌+◌, arith, false, some, [], ◌∷◌, ◌++◌,
  ne→eq-false,
}
use samba_operator.Base.Dict.{Dict, lookup}
use samba_operator.Planner.Instance.{Planner}
use samba_operator.Planner.Properties.{instance_name}
use samba_operator.Resources.Labels.{
  labels_for_smb_server, labels_for_managed_resource, label_value, service_label,
}
use samba_operator.Resources.Labels.Bounds.{label_value_of_short}
use samba_operator.Resources.Metrics.{metrics_instance_name}
use samba_operator.Resources.MetricsService.{new_metrics_service}
use samba_operator.Resources.Workloads.Selection.{selects, lookup-labels_for_smb_server}
use Prim.Native.String.{len}
use text.Mathlib.TextPositions.{len-append}

-- An entry with another value than the labels have spoils the whole selector.
selects-other :
    (before : Dict String) (k v w : String) (labels : Dict String)
    → lookup k labels ≡ some w
    → (w == v) ≡ false
    → selects (before ++ (k, v) ∷ []) labels ≡ false
selects-other [] k v w labels h d = rw h (rw d refl)
selects-other ((j, x) ∷ before) k v w labels h d =
    rw (selects-other before k v w labels h d) (ground arith)

other_service :
    (name : String) (labels : Dict String) (v : String)
    → lookup service_label labels ≡ some v
    → (v == label_value (name ∷ [])) ≡ false
    → selects (labels_for_managed_resource name) labels ≡ false
unfolding labels_for_managed_resource
other_service name labels v h d =
    selects-other
      (("app", "samba")
        ∷ ("app.kubernetes.io/name", "samba")
        ∷ ("app.kubernetes.io/instance", label_value ("samba" ∷ name ∷ []))
        ∷ ("app.kubernetes.io/component", "smbd")
        ∷ ("app.kubernetes.io/part-of", "samba")
        ∷ ("app.kubernetes.io/managed-by", "samba-operator")
        ∷ [])
      service_label _ v labels h d

metrics-ne : (name : String) → name ≢ name <> "-metrics"
metrics-ne name e =
    let longer : len name ≡ len name + 8 = ap len e ∙ len-append name "-metrics" in omega arith

metrics-selects_nothing :
    (pl : Planner)
    → len (metrics_instance_name pl) ≤ 63
    → selects (labels_for_managed_resource (metrics_instance_name pl)) (labels_for_smb_server pl)
      ≡ false
unfolding metrics_instance_name
metrics-selects_nothing pl h =
    let name = instance_name pl in
    let long : len (name <> "-metrics") ≡ len name + 8 = len-append name "-metrics" in
    other_service (name <> "-metrics") (labels_for_smb_server pl) _
      (lookup-labels_for_smb_server pl)
      (rw (label_value_of_short name (omega arith), label_value_of_short (name <> "-metrics") h)
        (ne→eq-false name (name <> "-metrics") (metrics-ne name)))

-- The service for metrics does not select the labels that the server's pods get, where its name,
-- "<instance>-metrics", is no longer than a label may be.
pub new_metrics_service-selects_nothing :
    (api_version kind : String) (pl : Planner) (ns : String)
    → len (metrics_instance_name pl) ≤ 63
    → selects (new_metrics_service api_version kind pl ns).selector (labels_for_smb_server pl)
      ≡ false
unfolding new_metrics_service
new_metrics_service-selects_nothing api_version kind pl ns h = metrics-selects_nothing pl h
