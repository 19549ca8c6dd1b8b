-- ===== src/Resources.antt =====
-- internal/resources: the reconciliation of SmbShare resources.
pub mod Outcome
pub mod Ownership
pub mod Kube
pub mod Attempt
pub mod Claims
pub mod Transfer
pub mod ServerGroup
pub mod Backend
pub mod ConfigMaps
pub mod Objects
pub mod Volumes
pub mod Metrics
pub mod Pods
pub mod Labels
pub mod Workloads
pub mod MetricsService
pub mod Services
pub mod Sizes
pub mod OpenShift
pub mod Platform
pub mod Step
pub mod Getters
pub mod Namespaces
pub mod Ensure
pub mod Refusing
pub mod Grants
pub mod Monitoring
pub mod Servers
pub mod Manager
pub mod Reconcile
pub mod Once
pub mod Written
