-- ===== src/Resources/Pods.antt =====
-- internal/resources/pods.go: the pods of a share's servers.
pub mod Env
pub mod Containers
pub mod Joins
pub mod Builders
pub mod Clustered
pub mod Groups
pub mod Mounts
pub mod Ascending
pub mod Fitting
pub mod WellFormed
pub mod Standard
pub mod ClusterFitting
pub mod Cluster
pub mod Names
