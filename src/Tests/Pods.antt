-- ===== src/Tests/Pods.antt =====
-- The theorems on pods, workloads and labels, for a share in a domain with a metrics exporter.
use samba_operator.Base.{
  String, ◌≡◌, refl, ◌≤◌, ℕ, suc, true, false, Option, none, some, [], ◌∷◌, arith,
}
use samba_operator.Base.Dict.{Dict}
use samba_operator.Base.Int.{pos}
use samba_operator.Base.Panics.{returns}
use samba_operator.Conf.{default_operator_config}
use samba_operator.Planner.Instance.{Planner}
use samba_operator.Resources.Outcome.{Error}
use samba_operator.Resources.Attempt.{gives}
use samba_operator.Resources.Objects.{PodSpec, Workload, Service}
use samba_operator.Resources.Pods.Builders.{build_pod_spec}
use samba_operator.Resources.Pods.Clustered.{build_clustered_pod_spec}
use samba_operator.Resources.Pods.WellFormed.{WellFormed}
use samba_operator.Resources.Pods.Standard.{build_pod_spec-WellFormed}
use samba_operator.Resources.Pods.Cluster.{build_clustered_pod_spec-WellFormed}
use samba_operator.Resources.Sizes.{update_stateful_set_size}
use samba_operator.Resources.Sizes.Grows.{le_int, update_stateful_set_size_grows}
use samba_operator.Resources.Labels.{label_value, labels_for_smb_server}
use samba_operator.Resources.Labels.Bounds.{len-label_value}
use samba_operator.Resources.MetricsService.{new_metrics_service}
use samba_operator.Resources.Metrics.{metrics_instance_name}
use samba_operator.Resources.Workloads.{new_meta, build_deployment, build_stateful_set}
use samba_operator.Resources.Workloads.Selection.{
  selects, build_deployment-new_service_for_smb, build_stateful_set-new_service_for_smb,
}
use samba_operator.Resources.Workloads.MetricsSelection.{new_metrics_service-selects_nothing}
use samba_operator.Resources.Services.{new_service_for_smb}
use samba_operator.Tests.{files, metadata_of}
use Prim.Native.String.{len}

abbrev domain : Planner
domain = record files {
  security_config = some (record {
    metadata = metadata_of "domain";
    spec = record {
      mode = "active-directory";
      users = none;
      realm = "samba.example";
      join_sources =
          record { user_join = some (record { secret = "join"; key = "join.json" }) } ∷ [];
      domains = [];
      dns = some (record { register = "cluster-ip" });
    };
  });
  global_config = record default_operator_config { metrics_exporter_mode = "enabled" };
}

abbrev no_json : String → Option (Dict String)
no_json text = none

build_clustered_pod_spec-WellFormed_example :
    (spec : PodSpec) × (build_clustered_pod_spec no_json domain "data" "state" ≡ returns spec)
    × WellFormed spec
build_clustered_pod_spec-WellFormed_example =
    build_clustered_pod_spec-WellFormed no_json domain "data" "state"

build_pod_spec-WellFormed_example :
    (spec : PodSpec) × (build_pod_spec no_json domain "data" ≡ returns spec) × WellFormed spec
build_pod_spec-WellFormed_example = build_pod_spec-WellFormed no_json domain "data"

build_stateful_set-new_service_for_smb_example :
    (w : Workload) × (svc : Service) × (build_stateful_set no_json domain "data" "state" "samba"
      ≡ returns w)
    × (new_service_for_smb domain "samba" ≡ returns svc)
    × (selects w.match_labels w.template.labels ≡ true)
    × (selects svc.selector w.template.labels ≡ true)
build_stateful_set-new_service_for_smb_example =
    build_stateful_set-new_service_for_smb no_json domain.global_config domain "data" "state"
      "samba"

build_deployment-new_service_for_smb_example :
    (w : Workload) × (svc : Service) × (build_deployment no_json domain.global_config domain "data"
        "samba"
      ≡ returns w)
    × (new_service_for_smb domain "samba" ≡ returns svc)
    × (selects w.match_labels w.template.labels ≡ true)
    × (selects svc.selector w.template.labels ≡ true)
build_deployment-new_service_for_smb_example =
    build_deployment-new_service_for_smb no_json domain.global_config domain "data" "state" "samba"

short_name : len (metrics_instance_name domain) ≤ 63
unfolding metrics_instance_name
short_name = omega arith

new_metrics_service-selects_nothing_example :
    selects
      (new_metrics_service "v1" "SmbShare" domain "samba").selector
      (labels_for_smb_server domain)
    ≡ false
new_metrics_service-selects_nothing_example =
    new_metrics_service-selects_nothing "v1" "SmbShare" domain "samba" short_name

len-label_value_example : len (label_value ("samba" ∷ "files" ∷ [])) ≤ 63
len-label_value_example = len-label_value ("samba" ∷ "files" ∷ [])

-- A stateful set of the given size.
abbrev set_of : ℕ → Workload
set_of n = record {
  metadata = new_meta "files" "samba" [] [];
  replicas = some (pos n);
  match_labels = [];
  template = record {
    labels = [];
    annotations = [];
    spec = record {
      volumes = [];
      init_containers = [];
      containers = [];
      node_selector = [];
      service_account_name = "default";
      automount_service_account_token = none;
      share_process_namespace = none;
      affinity = none;
    };
  };
}

-- A client that counts its writes.
abbrev counted : ℕ → Workload → ℕ × Option Error
counted n w = (suc n, none)

three_sized : update_stateful_set_size counted 0 (set_of 2) (pos 3) ≡ (1, gives (true, set_of 3))
unfolding update_stateful_set_size
three_sized = refl

update_stateful_set_size_grows_example :
    (r' : _) × ((set_of 3).replicas ≡ some r')
    × (le_int (pos 2) r' ≡ true)
    × (le_int (pos 3) r' ≡ true)
    × (update_stateful_set_size counted 1 (set_of 3) (pos 3) ≡ (1, gives (false, set_of 3)))
update_stateful_set_size_grows_example =
    update_stateful_set_size_grows counted 0 1 (set_of 2) (set_of 3) (pos 3) (pos 2) true refl
      three_sized
