-- ===== src/Resources/Written.antt =====
-- One write of the operator, as a relation between the cluster before and after it, whatever it
-- answers.
use samba_operator.Api.SmbShare.{SmbShare}
use samba_operator.Api.Meta.{NamespacedName}
use samba_operator.Resources.Kube.{ConfigMap}
use samba_operator.Resources.Objects.{
  Workload, Service, PersistentVolumeClaim, Namespace, ServiceAccount, Role, RoleBinding,
  ServiceMonitor,
}
use samba_operator.Resources.OpenShift.{Grant}
use samba_operator.Resources.Platform.{Platform}

pub data Written {W : Type 0} (p : Platform W) : W → W → Type 0 where
  share_updated : (w : W) (s : SmbShare) → Written p w (p.client.shares.update w s).0
  status_updated : (w : W) (s : SmbShare) → Written p w (p.client.update_share_status w s).0
  map_created : (w : W) (cm : ConfigMap) → Written p w (p.client.config_maps.create w cm).0
  map_updated : (w : W) (cm : ConfigMap) → Written p w (p.client.config_maps.update w cm).0
  deployment_created : (w : W) (d : Workload) → Written p w (p.deployments.create w d).0
  deployment_updated : (w : W) (d : Workload) → Written p w (p.deployments.update w d).0
  stateful_set_created : (w : W) (d : Workload) → Written p w (p.stateful_sets.create w d).0
  stateful_set_updated : (w : W) (d : Workload) → Written p w (p.stateful_sets.update w d).0
  pvc_created : (w : W) (c : PersistentVolumeClaim) → Written p w (p.pvcs.create w c).0
  pvc_updated : (w : W) (c : PersistentVolumeClaim) → Written p w (p.pvcs.update w c).0
  service_created : (w : W) (v : Service) → Written p w (p.services.create w v).0
  service_updated : (w : W) (v : Service) → Written p w (p.services.update w v).0
  monitor_created : (w : W) (m : ServiceMonitor) → Written p w (p.service_monitors.create w m).0
  namespace_updated : (w : W) (ns : Namespace) → Written p w (p.namespaces.update w ns).0
  account_created : (w : W) (a : ServiceAccount) → Written p w (p.service_accounts.create w a).0
  role_created : (w : W) (r : Role) → Written p w (p.roles.create w r).0
  binding_created : (w : W) (b : RoleBinding) → Written p w (p.role_bindings.create w b).0
  grant_deleted :
      (w : W) (g : Grant) (key : NamespacedName) → Written p w (p.delete_grant w g key).0
