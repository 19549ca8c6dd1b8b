-- ===== src/Resources/Workloads.antt =====
-- internal/resources/deployments.go and statefulsets.go: the objects that run a server's pods.
pub mod Selection
pub mod MetricsSelection
use samba_operator.Base.{
  String, ◌==◌, if◌then◌else◌, or_zero, Bool, Option, none, some, List, [], ◌∷◌, ◌++◌,
}
use samba_operator.Base.Dict.{Dict, lookup}
use samba_operator.Base.Int.{pos}
use samba_operator.Base.Panics.{Run, returns, ◌>>=◌}
use samba_operator.Conf.{OperatorConfig}
use samba_operator.Api.Meta.{ObjectMeta}
use samba_operator.Api.SmbCommonConfig.{Affinity, PodAffinityTerm, PodAntiAffinity}
use samba_operator.Planner.Instance.{Planner}
use samba_operator.Planner.Properties.{instance_name, cluster_size}
use samba_operator.Planner.Misc.{node_spread}
use samba_operator.Resources.Objects.{PodSpec, Workload}
use samba_operator.Resources.Labels.{
  labels_for_smb_server, annotations_for_smb_pod, affinity_for_smb_pod, service_label,
  samba_scc_name,
}
use samba_operator.Resources.Pods.Builders.{build_pod_spec}
use samba_operator.Resources.Pods.Clustered.{build_clustered_pod_spec}

-- The metadata that the operator gives to a new object.
abbrev pub new_meta : String → String → Dict String → Dict String → ObjectMeta
new_meta name ns labels annotations = record {
  name = name;
  namespace = ns;
  uid = "";
  labels = labels;
  annotations = annotations;
  owner_references = [];
  finalizers = [];
  deletion_timestamp = none;
}

no_affinity : Affinity
no_affinity = record { node_affinity = none; pod_affinity = none; pod_anti_affinity = none }

or_no_affinity : Option Affinity → Affinity
unfolding no_affinity
or_no_affinity none = no_affinity
or_no_affinity (some a) = a

or_no_anti_affinity : Option PodAntiAffinity → PodAntiAffinity
or_no_anti_affinity none = record { required = []; preferred = "" }
or_no_anti_affinity (some a) = a

-- In the source the affinity of the common configuration is itself changed where it has one.
unfoldable pub build_one_smbd_per_node_affinity : Planner → Dict String → String → Affinity
unfolding affinity_for_smb_pod or_no_affinity or_no_anti_affinity lookup
build_one_smbd_per_node_affinity pl labels key =
    let one_pod_per_node : PodAffinityTerm = record {
      topology_key = "kubernetes.io/hostname";
      key = key;
      operator = "In";
      values = or_zero (lookup key labels) ∷ [];
    } in
    let affinity = or_no_affinity (affinity_for_smb_pod pl) in
    let anti = or_no_anti_affinity affinity.pod_anti_affinity in
    record affinity {
      pod_anti_affinity = some (record anti { required = anti.required ++ one_pod_per_node ∷ [] });
    }

module _ (unmarshal : String → Option (Dict String)) where
  unfoldable pub build_deployment : OperatorConfig → Planner → String → String → Run Workload
  unfolding labels_for_smb_server build_pod_spec affinity_for_smb_pod annotations_for_smb_pod
      instance_name
  build_deployment cfg pl pvc ns = do
    let labels = labels_for_smb_server pl
    pod_spec ← build_pod_spec unmarshal pl pvc
    returns (record {
      metadata = new_meta (instance_name pl) ns labels (("openshift.io/scc", samba_scc_name) ∷ []);
      replicas = some (pos 1);
      match_labels = labels;
      template = record {
        labels = labels;
        annotations = annotations_for_smb_pod cfg;
        spec = record pod_spec { affinity = affinity_for_smb_pod pl };
      };
    })

  unfoldable pub build_stateful_set : Planner → String → String → String → Run Workload
  unfolding labels_for_smb_server cluster_size build_clustered_pod_spec node_spread
      build_one_smbd_per_node_affinity affinity_for_smb_pod annotations_for_smb_pod instance_name
  build_stateful_set pl data_pvc state_pvc ns = do
    let labels = labels_for_smb_server pl
    pod_spec ← build_clustered_pod_spec unmarshal pl data_pvc state_pvc
    let affinity =
        if node_spread pl
        then some (build_one_smbd_per_node_affinity pl labels service_label)
        else affinity_for_smb_pod pl
    returns (record {
      metadata = new_meta (instance_name pl) ns labels [];
      replicas = some (cluster_size pl);
      match_labels = labels;
      template = record {
        labels = labels;
        annotations = annotations_for_smb_pod pl.global_config;
        spec = record pod_spec { affinity = affinity };
      };
    })
