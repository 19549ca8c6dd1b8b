-- ===== src/Resources/Workloads/Selection.antt =====
-- internal/resources/deployments.go, statefulsets.go and services.go: whom the selectors select.
use samba_operator.Base.{
  String, ◌==◌, ◌≡◌, refl, ◌∙◌, arith, Bool, true, false, ◌&&◌, Option, none, some, [], ◌∷◌,
  or_zero, eq_refl, eq_iff,
}
use samba_operator.Base.Dict.{Dict, lookup, NodupKeys, lookup-insert, insert-NodupKeys}
use samba_operator.Base.Panics.{Run, returns, Holds, Holds->>=}
use samba_operator.Conf.{OperatorConfig}
use samba_operator.Planner.Instance.{Planner}
use samba_operator.Planner.Properties.{instance_name}
use samba_operator.Planner.Misc.{service_type}
use samba_operator.Api.SmbCommonConfig.{SmbCommonConfig}
use samba_operator.Api.SmbSecurityConfig.{SmbSecurityConfig}
use samba_operator.Resources.Objects.{Workload, Service}
use samba_operator.Resources.Labels.{
  labels_for_smb_server, labels_for_managed_resource, label_value, service_label,
  common_config_label, security_config_label, common_labelled, security_labelled,
}
use samba_operator.Resources.Pods.Standard.{build_pod_spec-WellFormed}
use samba_operator.Resources.Pods.Cluster.{build_clustered_pod_spec-WellFormed}
use samba_operator.Resources.Workloads.{build_deployment, build_stateful_set}
use samba_operator.Resources.Services.{new_service_for_smb, to_service_type-total}

abbrev holds_value : Option String → String → Bool
holds_value none v = false
holds_value (some w) v = w == v

-- Whether labels have every entry of a selector.
abbrev pub selects : Dict String → Dict String → Bool
selects [] labels = true
selects ((k, v) ∷ s) labels = holds_value (lookup k labels) v && selects s labels

-- What is looked up in a part is found in the whole.
abbrev Within : Dict String → Dict String → Type 0
Within s labels = (k v : String) → lookup k s ≡ some v → lookup k labels ≡ some v

selects-Within : (s labels : Dict String) → NodupKeys s → Within s labels → selects s labels ≡ true
unfolding lookup
selects-Within [] labels u w = refl
selects-Within ((k, v) ∷ s) labels (fresh, u) w =
    rw (w k v (rw (eq_refl k) refl))
      (rw (eq_refl v) (selects-Within s labels u λ j x h. w j x (ground (arith, eq_iff k j))))

pub selects_self : (labels : Dict String) → NodupKeys labels → selects labels labels ≡ true
selects_self labels u = selects-Within labels labels u λ k v h. h

managed-NodupKeys : (name : String) → NodupKeys (labels_for_managed_resource name)
unfolding labels_for_managed_resource lookup
managed-NodupKeys name = (refl, (refl, (refl, (refl, (refl, (refl, (refl, tt)))))))

managed-service :
    (name : String)
    → lookup service_label (labels_for_managed_resource name) ≡ some (label_value (name ∷ []))
unfolding labels_for_managed_resource lookup
managed-service name = refl

common-NodupKeys :
    (c : Option SmbCommonConfig) (m : Dict String) → NodupKeys m → NodupKeys (common_labelled c m)
unfolding common_labelled
common-NodupKeys none m u = u
common-NodupKeys (some c) m u = insert-NodupKeys common_config_label _ m u

security-NodupKeys :
    (c : Option SmbSecurityConfig) (m : Dict String)
    → NodupKeys m
    → NodupKeys (security_labelled c m)
unfolding security_labelled
security-NodupKeys none m u = u
security-NodupKeys (some c) m u = insert-NodupKeys security_config_label _ m u

lookup-common :
    (c : Option SmbCommonConfig) (m : Dict String)
    → lookup service_label (common_labelled c m) ≡ lookup service_label m
unfolding common_labelled
lookup-common none m = refl
lookup-common (some c) m = lookup-insert service_label common_config_label _ m

lookup-security :
    (c : Option SmbSecurityConfig) (m : Dict String)
    → lookup service_label (security_labelled c m) ≡ lookup service_label m
unfolding security_labelled
lookup-security none m = refl
lookup-security (some c) m = lookup-insert service_label security_config_label _ m

abbrev managed : Planner → Dict String
managed pl = labels_for_managed_resource (instance_name pl)

labels-NodupKeys : (pl : Planner) → NodupKeys (labels_for_smb_server pl)
unfolding labels_for_smb_server
labels-NodupKeys pl =
    security-NodupKeys pl.security_config (common_labelled pl.common_config (managed pl))
      (common-NodupKeys pl.common_config (managed pl) (managed-NodupKeys (instance_name pl)))

-- The label of the service is that of the instance.
pub lookup-labels_for_smb_server :
    (pl : Planner)
    → lookup service_label (labels_for_smb_server pl) ≡ some (label_value (instance_name pl ∷ []))
unfolding labels_for_smb_server
lookup-labels_for_smb_server pl =
    lookup-security pl.security_config (common_labelled pl.common_config (managed pl))
    ∙ (lookup-common pl.common_config (managed pl) ∙ managed-service (instance_name pl))

abbrev Selected : Workload → Type 0
Selected w = selects w.match_labels w.template.labels ≡ true

entry-selects :
    (k v : String) (labels : Dict String)
    → lookup k labels ≡ some v
    → selects ((k, or_zero (lookup k labels)) ∷ []) labels ≡ true
entry-selects k v labels h = rw h (rw (eq_refl v) refl)

service-selects :
    (pl : Planner) (ns : String)
    → Holds
        (λ svc. selects svc.selector (labels_for_smb_server pl) ≡ true)
        (new_service_for_smb pl ns)
unfolding new_service_for_smb
service-selects pl ns =
    Holds->>= {P = λ k. k ≡ service_type pl} (_, to_service_type-total pl, refl)
      λ kind _. (
        _,
        refl,
        entry-selects service_label _ (labels_for_smb_server pl) (lookup-labels_for_smb_server pl),
      )

module _ (unmarshal : String → Option (Dict String)) (cfg : OperatorConfig) (pl : Planner)
    (data_pvc state_pvc ns : String) where
  abbrev Labelled : Workload → Type 0
  Labelled w = Selected w × (w.template.labels ≡ labels_for_smb_server pl)

  deployment-Labelled : Holds Labelled (build_deployment unmarshal cfg pl data_pvc ns)
  unfolding build_deployment
  deployment-Labelled =
      Holds->>= (build_pod_spec-WellFormed unmarshal pl data_pvc)
        λ spec _. (_, refl, (selects_self (labels_for_smb_server pl) (labels-NodupKeys pl), refl))

  stateful_set-Labelled : Holds Labelled (build_stateful_set unmarshal pl data_pvc state_pvc ns)
  unfolding build_stateful_set
  stateful_set-Labelled =
      Holds->>= (build_clustered_pod_spec-WellFormed unmarshal pl data_pvc state_pvc)
        λ spec _. (_, refl, (selects_self (labels_for_smb_server pl) (labels-NodupKeys pl), refl))

  with_service :
      {m : Run Workload}
      → Holds Labelled m
      → (w : Workload) × (svc : Service) × (m ≡ returns w)
        × (new_service_for_smb pl ns ≡ returns svc)
        × (selects w.match_labels w.template.labels ≡ true)
        × (selects svc.selector w.template.labels ≡ true)
  with_service (w, made, (selected, same)) =
      let (svc, served, matches) = service-selects pl ns in
      (w, svc, made, served, selected, rw same matches)

  -- The deployment and the service of a server are always built. The deployment selects its own
  -- pods, and the service selects them too.
  pub build_deployment-new_service_for_smb :
      (w : Workload) × (svc : Service) × (build_deployment unmarshal cfg pl data_pvc ns ≡ returns w)
      × (new_service_for_smb pl ns ≡ returns svc)
      × (selects w.match_labels w.template.labels ≡ true)
      × (selects svc.selector w.template.labels ≡ true)
  build_deployment-new_service_for_smb = with_service deployment-Labelled

  -- The stateful set and the service of a clustered server are always built. The stateful set
  -- selects its own pods, and the service selects them too.
  pub build_stateful_set-new_service_for_smb :
      (w : Workload) × (svc : Service) × (build_stateful_set unmarshal pl data_pvc state_pvc ns
        ≡ returns w)
      × (new_service_for_smb pl ns ≡ returns svc)
      × (selects w.match_labels w.template.labels ≡ true)
      × (selects svc.selector w.template.labels ≡ true)
  build_stateful_set-new_service_for_smb = with_service stateful_set-Labelled
