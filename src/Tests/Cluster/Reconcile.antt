-- ===== src/Tests/Cluster/Reconcile.antt =====
-- The theorems on the reconciliation as a whole, in a cluster with the objects of one share.
use samba_operator.Base.{
  ◌≡◌, refl, ◌⊎◌, ◌↔◌, Bool, ◌==◌, ◌&&◌, if◌then◌else◌, true, false, none, some, [], ◌∷◌,
}
use samba_operator.Base.Int.{pos}
use samba_operator.Base.Panics.{returns}
use samba_operator.Api.Meta.{ObjectMeta, NamespacedName}
use samba_operator.Api.SmbShare.{SmbShare}
use samba_operator.Conf.{OperatorConfig, default_operator_config}
use samba_operator.Planner.Configuration.{configure_share}
use samba_operator.Resources.Outcome.{Error, not_found, failed, done}
use samba_operator.Resources.Kube.{Api, ConfigMap, got, refused}
use samba_operator.Resources.Attempt.{gives}
use samba_operator.Resources.Objects.{Workload, Service, Namespace}
use samba_operator.Resources.Claims.{share_ref}
use samba_operator.Resources.Backend.{server_backend, standard_backend}
use samba_operator.Resources.Platform.{Platform}
use samba_operator.Resources.Refusing.{Refusing}
use samba_operator.Resources.Step.{finished, after_change, after_attempt}
use samba_operator.Resources.Namespaces.{label_namespace}
use samba_operator.Resources.Namespaces.Labelled.{Labelled, Decided, label_namespace-Labelled}
use samba_operator.Resources.Reconcile.{process, update_share, finalize}
use samba_operator.Resources.Reconcile.InPlace.{InPlace}
use samba_operator.Resources.Written.{Written}
use samba_operator.Resources.Reconcile.Writes.{process_once}
use samba_operator.Resources.Reconcile.Kept.{update_share_iff}
use samba_operator.Resources.Reconcile.Cleared.{Finished, finalize-Cleared}
use samba_operator.Resources.Reconcile.Processed.{Settled, process-done}
use samba_operator.Tests.{metadata_of, after_files}
use samba_operator.Tests.Cluster.{client, runtime, codec, share, full_map, fresh_map, going}

-- Every read finds the object, and writes change nothing.
abbrev fixed : {A : Type 0} → A → Api ConfigMap A
fixed a = record {
  get = (λ w name. got a);
  create = (λ w b. (w, none));
  update = (λ w b. (w, none));
}

abbrev missing : {A : Type 0} → Api ConfigMap A
missing = record {
  get = (λ w name. refused not_found);
  create = (λ w b. (w, none));
  update = (λ w b. (w, none));
}

-- The error of a creation where an object of the name exists.
abbrev already_exists : Error
already_exists = failed "already exists"

abbrev has_name : ObjectMeta → NamespacedName → Bool
has_name m key = m.namespace == key.namespace && m.name == key.name

abbrev key_of : ObjectMeta → NamespacedName
key_of m = record { namespace = m.namespace; name = m.name }

-- The calls for one object that is found by its name and refuses another one of the name.
abbrev existing : {A : Type 0} → (A → ObjectMeta) → A → Api ConfigMap A
existing meta a = record {
  get = (λ w key. if has_name (meta a) key then got a else refused not_found);
  create = (λ w b. (w, if has_name (meta a) (key_of (meta b)) then some already_exists else none));
  update = (λ w b. (w, none));
}

-- The share as it is once it has been served.
abbrev served : SmbShare
served = record share {
  metadata = record share.metadata { annotations = (server_backend, standard_backend) ∷ [] };
}

abbrev deployment : Workload
deployment = record {
  metadata = record (metadata_of "g") { owner_references = share_ref share ∷ [] };
  replicas = some (pos 1);
  match_labels = [];
  template = record {
    labels = [];
    annotations = [];
    spec = record {
      volumes = [];
      init_containers = [];
      containers = [];
      node_selector = [];
      service_account_name = "";
      automount_service_account_token = none;
      share_process_namespace = none;
      affinity = none;
    };
  };
}

abbrev service : Service
service = record {
  metadata = record (metadata_of "g") { owner_references = share_ref share ∷ [] };
  service_type = "ClusterIP";
  ports = [];
  selector = [];
}

abbrev platform_of : SmbShare → Api ConfigMap Workload → Platform ConfigMap
platform_of s deployments = record {
  client = record client { shares = fixed s };
  runtime = record runtime { contains_finalizer = (λ s f. true) };
  codec = codec;
  deployments = deployments;
  stateful_sets = missing;
  pvcs = missing;
  services = existing (λ d. d.metadata) service;
  service_monitors = missing;
  namespaces = missing;
  service_accounts = missing;
  roles = missing;
  role_bindings = missing;
  delete_grant = (λ w g key. (w, none));
  pod_annotations = (λ w key. refused not_found);
  is_already_exists = (λ e. elim e [ not_found ↦ false | failed text ↦ text == "already exists" ]);
  parse_quantity = (λ text. got text);
  unmarshal = (λ text. none);
  api_version = "";
  kind = "";
}

abbrev platform : Platform ConfigMap
platform = platform_of served (fixed deployment)

abbrev leaving : Platform ConfigMap
leaving = platform_of going missing

platform_of-Refusing : (s : SmbShare) (d : Api ConfigMap Workload) → Refusing (platform_of s d)
platform_of-Refusing s d = record {
  service_accounts = (λ w w' want e h k. cc h);
  roles = (λ w w' want e h k. cc h);
  role_bindings = (λ w w' want e h k. cc h);
  services = (λ w w' want e h k. cc h);
  service_monitors = (λ w w' want e h k. cc h);
}

abbrev typed : OperatorConfig
typed = record default_operator_config { cluster_type = "default" }

abbrev name : NamespacedName
name = record { namespace = "samba"; name = "share" }

process_served :
    process platform full_map default_operator_config name ≡ (full_map, typed, returns done)
unfolding process after_change after_attempt codec after_files configure_share
process_served = refl

served_updated :
    finished (update_share platform served full_map default_operator_config)
    ≡ (full_map, typed, returns done)
unfolding update_share after_change after_attempt codec after_files configure_share
served_updated = refl

going_finalized :
    finished (finalize leaving going fresh_map default_operator_config)
    ≡ (fresh_map, typed, returns done)
unfolding finalize
going_finalized = refl

process-done_example :
    ((got served ≡ refused not_found) × (full_map ≡ full_map))
    ⊎ ((s : SmbShare) × (got served ≡ got s)
        × Settled platform
            (platform_of-Refusing served (fixed deployment))
            full_map
            default_operator_config
            s
            full_map
            typed)
process-done_example =
    process-done platform (platform_of-Refusing served (fixed deployment)) full_map
      default_operator_config typed full_map name process_served

process_once_example :
    ((process platform full_map default_operator_config name).0 ≡ full_map)
    ⊎ Written platform full_map (process platform full_map default_operator_config name).0
process_once_example =
    process_once platform full_map (platform_of-Refusing served (fixed deployment))
      default_operator_config name

update_share_iff_example :
    (finished (update_share platform served full_map default_operator_config)
      ≡ (full_map, typed, returns done))
    ↔ ((full_map ≡ full_map)
        × InPlace platform
            (platform_of-Refusing served (fixed deployment))
            full_map
            served
            default_operator_config
            typed)
update_share_iff_example =
    update_share_iff platform (platform_of-Refusing served (fixed deployment)) full_map full_map
      default_operator_config typed served

finalize-Cleared_example : Finished leaving fresh_map default_operator_config going fresh_map typed
finalize-Cleared_example =
    finalize-Cleared leaving fresh_map fresh_map default_operator_config typed going going_finalized

abbrev bare : Namespace
bare = record {
  name = "samba";
  labels = some (("team", "storage") ∷ []);
  annotations = ("owner", "us") ∷ [];
  spec = [];
}

abbrev labelled : Namespace
labelled = record bare {
  labels = some (
      ("team", "storage")
      ∷ ("openshift.io/cluster-monitoring", "true")
      ∷ ("pod-security.kubernetes.io/enforce", "privileged")
      ∷ ("pod-security.kubernetes.io/audit", "privileged")
      ∷ ("pod-security.kubernetes.io/warn", "privileged")
      ∷ ("security.openshift.io/scc.podSecurityLabelSync", "false")
      ∷ []);
  annotations = [];
}

bare-labelled :
    label_namespace platform full_map share (got bare) ≡ (full_map, gives (true, labelled))
unfolding label_namespace
bare-labelled = refl

label_namespace-Labelled_example :
    Labelled bare labelled
    × Decided platform full_map bare full_map true labelled
    × (label_namespace platform full_map share (got labelled) ≡ (full_map, gives (false, labelled)))
label_namespace-Labelled_example =
    label_namespace-Labelled platform full_map full_map share bare labelled true bare-labelled
