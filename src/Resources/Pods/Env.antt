-- ===== src/Resources/Pods/Env.antt =====
-- internal/resources/pods.go: the environment of the containers, and the settings of a pod.
use samba_operator.Base.{String, ◌<>◌, ◌==◌, ◌!=◌, ◌||◌, if◌then◌else◌, Bool, true, false}
use samba_operator.Base.{Option, some, none, List, [], ◌∷◌, ◌++◌}
use samba_operator.Base.Strings.{join}
use samba_operator.Conf.{cluster_type_open_shift}
use samba_operator.Planner.Instance.{Planner}
use samba_operator.Planner.Properties.{instance_name}
use samba_operator.Planner.Misc.{samba_container_debug_level}
use samba_operator.Planner.Paths.{container_configs, service_watch_json}
use samba_operator.Resources.Objects.{EnvVar, value, field_ref, PodSpec, SecurityContext}

abbrev pub svc_selector_key : String
svc_selector_key = "samba-operator.samba.org/service"

abbrev pub samba_service_account_name : String
samba_service_account_name = "samba"

abbrev pub valued : String → String → EnvVar
valued name text = record { name = name; source = value text }

abbrev pub from_field : String → String → EnvVar
from_field name path = record { name = name; source = field_ref path }

unfoldable pub join_env_paths : List String → String
unfolding join
join_env_paths p = join p ":"

unfoldable pub svc_watch_env : Planner → List EnvVar
unfolding service_watch_json
svc_watch_env _ =
    valued "DESTINATION_PATH" service_watch_json
    ∷ valued "SERVICE_LABEL_KEY" svc_selector_key
    ∷ from_field "SERVICE_LABEL_VALUE" ("metadata.labels['" <> (svc_selector_key <> "']"))
    ∷ from_field "SERVICE_NAMESPACE" "metadata.namespace"
    ∷ []

abbrev pub meta_pod_env : List EnvVar
meta_pod_env =
    from_field "SAMBA_POD_NAME" "metadata.name"
    ∷ from_field "SAMBA_POD_NAMESPACE" "metadata.namespace"
    ∷ []

unfoldable pub default_pod_env : Planner → List EnvVar
unfolding instance_name join_env_paths container_configs samba_container_debug_level
default_pod_env pl =
    let lvl = samba_container_debug_level pl in
    valued "SAMBA_CONTAINER_ID" (instance_name pl)
      ∷ valued "SAMBACC_CONFIG" (join_env_paths (container_configs pl))
      ∷ (if lvl != "" then valued "SAMBA_DEBUG_LEVEL" lvl ∷ [] else [])
    ++ meta_pod_env

unfoldable pub ctdb_hostname_env : Planner → List EnvVar
ctdb_hostname_env _ =
    from_field "HOSTNAME" "metadata.name" ∷ valued "SAMBACC_CTDB" "ctdb-is-experimental" ∷ []

unfoldable pub pod_service_account : Planner → String × Option Bool
pod_service_account pl =
    if pl.global_config.cluster_type == cluster_type_open_shift
    then (samba_service_account_name, some true)
    else ("default", none)

unfoldable pub default_pod_spec : Planner → PodSpec
unfolding pod_service_account
default_pod_spec pl =
    let (account, automount) = pod_service_account pl in
    record {
      volumes = [];
      init_containers = [];
      containers = [];
      node_selector = [];
      service_account_name = account;
      automount_service_account_token = automount;
      share_process_namespace = some true;
      affinity = none;
    }

unfoldable pub image_pull_policy : Planner → String
image_pull_policy pl =
    let policy = pl.global_config.image_pull_policy in
    if policy == "Always" || policy == "Never" || policy == "IfNotPresent"
    then policy
    else "IfNotPresent"

abbrev pub ctr_priv_security_context : SecurityContext
ctr_priv_security_context = record { privileged = true; run_as_non_root = false }
