-- ===== src/Resources/Services.antt =====
-- internal/resources/services.go: the service of a server. A type outside Kubernetes' own panics.
use samba_operator.Base.{
  String, ◌≡◌, refl, ◌==◌, ◌||◌, if◌then◌else◌, Option-cases, Bool-cases, inl, inr,
}
use samba_operator.Base.{or_zero, [], ◌∷◌}
use samba_operator.Base.Dict.{lookup}
use samba_operator.Base.Int.{int32}
use samba_operator.Base.Panics.{Run, returns, panics, ◌>>=◌}
use samba_operator.Planner.Instance.{Planner}
use samba_operator.Planner.Properties.{instance_name}
use samba_operator.Planner.Misc.{service_type}
use samba_operator.Resources.Objects.{Service}
use samba_operator.Resources.Pods.Env.{svc_selector_key}
use samba_operator.Resources.Labels.{labels_for_smb_server}
use samba_operator.Resources.Workloads.{new_meta}

unfoldable pub to_service_type : String → Run String
to_service_type s =
    if s == "ClusterIP" || s == "NodePort" || s == "LoadBalancer" then returns s else panics

unfoldable pub new_service_for_smb : Planner → String → Run Service
unfolding labels_for_smb_server instance_name to_service_type service_type int32 lookup
new_service_for_smb pl ns = do
  let labels = labels_for_smb_server pl
  kind ← to_service_type (service_type pl)
  returns (record {
    metadata = new_meta (instance_name pl) ns labels [];
    service_type = kind;
    ports =
        record {
          name = "smb";
          protocol = "TCP";
          port = int32 pl.global_config.smb_service_port;
          target_port = int32 pl.global_config.smbd_port;
        }
        ∷ [];
    selector = (svc_selector_key, or_zero (lookup svc_selector_key labels)) ∷ [];
  })

-- The planner's service type is always one that Kubernetes has, so that building the service does
-- not panic.
pub to_service_type-total :
    (pl : Planner) → to_service_type (service_type pl) ≡ returns (service_type pl)
unfolding to_service_type service_type
to_service_type-total pl = elim (Option-cases pl.common_config) [
  | inl nil ↦ rw nil refl
  | inr (c, has) ↦ elim (Bool-cases (c.spec.network.publish == "external")) [
    | inl out ↦ rw has (rw out refl)
    | inr inside ↦ rw has (rw inside refl)
  ]
]
