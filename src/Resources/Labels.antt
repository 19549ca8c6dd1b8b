-- ===== src/Resources/Labels.antt =====
-- internal/resources/deployments.go: the labels and annotations of a server's objects. Label values
-- are cut at a number of bytes; a character that does not fit is dropped whole here.
pub mod Bounds
use samba_operator.Base.{String, ◌<>◌, ℕ, ltb, if◌then◌else◌, Option, none, some, List, [], ◌∷◌}
use samba_operator.Base.Dict.{Dict, insert}
use samba_operator.Base.Strings.{join}
use samba_operator.Conf.{OperatorConfig}
use samba_operator.Api.SmbCommonConfig.{Affinity, SmbCommonConfig}
use samba_operator.Api.SmbSecurityConfig.{SmbSecurityConfig}
use samba_operator.Planner.Instance.{Planner}
use samba_operator.Planner.Properties.{instance_name}
use samba_operator.Resources.Metrics.{with_metrics_exporter, annotations_for_smb_metrics_pod}
use Prim.Native.String.{len, slice}

abbrev pub service_label : String
service_label = "samba-operator.samba.org/service"

abbrev pub common_config_label : String
common_config_label = "samba-operator.samba.org/common-config-from"

abbrev pub security_config_label : String
security_config_label = "samba-operator.samba.org/security-config-from"

abbrev pub samba_scc_name : String
samba_scc_name = "samba"

unfoldable pub label_value : List String → String
unfolding join
label_value s = let out = join s "-" in if ltb 63 (len out) then slice out 0 63 else out

unfoldable pub labels_for_managed_resource : String → Dict String
unfolding label_value
labels_for_managed_resource name =
    ("app", "samba")
    ∷ ("app.kubernetes.io/name", "samba")
    ∷ ("app.kubernetes.io/instance", label_value ("samba" ∷ name ∷ []))
    ∷ ("app.kubernetes.io/component", "smbd")
    ∷ ("app.kubernetes.io/part-of", "samba")
    ∷ ("app.kubernetes.io/managed-by", "samba-operator")
    ∷ (service_label, label_value (name ∷ []))
    ∷ []

unfoldable pub common_labelled : Option SmbCommonConfig → Dict String → Dict String
unfolding insert label_value
common_labelled none labels = labels
common_labelled (some c) labels =
    insert common_config_label (label_value (c.metadata.name ∷ [])) labels

unfoldable pub security_labelled : Option SmbSecurityConfig → Dict String → Dict String
unfolding insert label_value
security_labelled none labels = labels
security_labelled (some c) labels =
    insert security_config_label (label_value (c.metadata.name ∷ [])) labels

unfoldable pub labels_for_smb_server : Planner → Dict String
unfolding labels_for_managed_resource common_labelled security_labelled instance_name
labels_for_smb_server pl =
    security_labelled pl.security_config
      (common_labelled pl.common_config (labels_for_managed_resource (instance_name pl)))

-- The loop that writes each entry of a map into another.
insert_all : Dict String → Dict String → Dict String
unfolding insert
insert_all [] m = m
insert_all ((k, v) ∷ kvs) m = insert_all kvs (insert k v m)

unfoldable pub annotations_for_smb_pod : OperatorConfig → Dict String
unfolding with_metrics_exporter insert_all annotations_for_smb_metrics_pod
annotations_for_smb_pod cfg =
    let annotations =
      ("kubectl.kubernetes.io/default-logs-container", cfg.smbd_container_name)
      ∷ ("kubectl.kubernetes.io/default-container", cfg.smbd_container_name)
      ∷ ("openshift.io/scc", samba_scc_name)
      ∷ [] in
    if with_metrics_exporter cfg
    then insert_all annotations_for_smb_metrics_pod annotations
    else annotations

pod_affinity : Option SmbCommonConfig → Option Affinity
pod_affinity none = none
pod_affinity (some c) = elim c.spec.pod_settings [ none ↦ none | some ps ↦ ps.affinity ]

unfoldable pub affinity_for_smb_pod : Planner → Option Affinity
unfolding pod_affinity
affinity_for_smb_pod pl = pod_affinity pl.common_config
