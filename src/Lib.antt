-- ===== src/Lib.antt =====
-- The samba-operator runs Samba servers for the SmbShare resources of a Kubernetes cluster. Its
-- planner (internal/planner) turns a share's resources, an SmbShare with its SmbSecurityConfig and
-- SmbCommonConfig, into the configuration (internal/smbcc) that the containers of a server group
-- read, and decides on names, paths, arguments and security.
--
-- The parts, by file:
--   Base: what is shared. `Run` is code that may dereference nil or panic; `Dict` is a Go map with
--     string keys, as an association list; Decimal, Int, Strings and Path are the parts of Go's
--     strconv, strings and path that the operator calls; Numeral reads decimal numerals back.
--   Api: api/v1alpha1/*_types.go, one record per type; a pointer is an `Option`.
--   Conf: internal/conf/config.go, the settings, their defaults and `Validate`; Validated is
--     on what it accepts. Conf/Source: `Source` and `Load`, over viper as a parameter; Defaults is on
--     the settings that nothing but the defaults gives.
--   Smbcc: internal/smbcc/container_config.go, whole.
--   Planner/Instance, Properties, Misc, Paths, Args, Selector, Compatible: the files of
--     internal/planner of those names, a function for a method. Decoding JSON is an argument.
--     Selector/Decodes is on its errors.
--   Planner/Configuration: internal/planner/configuration.go. `update` and `prune` are `Update` and
--     `Prune`: from a configuration to whether it changed and what it is then. Its children
--     Idmap and Options hold `idmapOptions` and the code that sets options; the others hold proofs:
--     Applied and ShareOptions on options, Steps, Section and Realm on the steps of `update`,
--     UpdateSteps on their order, Converges, Frame, Faults, Prune, RoundTrip and Group on the
--     whole.
--   Planner/Compatible/Agrees: which instances `CheckCompatible` lets share a server.
--   Resources: internal/resources. Outcome is result.go and its errors; Ownership is ownership.go;
--     Kube holds what is called of the Kubernetes client, the controller runtime and JSON, as
--     parameters; Attempt is code that returns a value or an error. Of smbshare.go and getters.go,
--     Claims, Transfer, ServerGroup and Backend hold `claimOwnership` and `addFinalizer`,
--     `transferOwnership`, `setServerGroup`, and `updateBackend` with `validateBackend`; ConfigMaps
--     holds configmap.go with `updateConfiguration` and `pruneConfiguration`; Manager holds
--     `updateConfigMap` and `finalizeConfigMap`; Sizes holds `updateStatefulSetSize`,
--     `updateDeploymentSize` and the names of volume claims. Their children hold the proofs.
--   Resources/Objects: the parts of Kubernetes' pods, workloads and services that are filled in.
--   Resources/Volumes: volumes.go, its keeper of volumes; Sources holds the volumes and mounts;
--     Distinct is on what makes a keeper valid.
--   Resources/Pods: pods.go. Env holds the environments and settings, Containers the containers,
--     Joins the sources of credentials, Builders and Clustered the builders of pods. A keeper that
--     several builders fill in the same way is a function of theirs. The others hold proofs: Names
--     tells the names of volumes apart, Groups sees a keeper as a list of kinds of volumes, Mounts,
--     Fitting, ClusterFitting and WellFormed are on the containers and what a pod needs, Ascending
--     on the volumes of join data, Standard and Cluster on the builders.
--   Resources/Labels, Workloads, Services: deployments.go, statefulsets.go and services.go.
--     Labels/Bounds, Workloads/Selection and Workloads/MetricsSelection hold proofs.
--   Resources/Platform: the client's calls for every kind of object and the decoders, as parameters.
--   Resources/Step: a method as a step that goes on with a value, stops with a result or panics.
--   Resources/Getters: of getters.go what gets or creates the objects of a server; Ensure: the same
--     with another read where the object exists by then, as openshift.go and metrics.go do it.
--   Resources/Metrics, MetricsService, Monitoring: of metrics.go the container, the annotations and
--     the service, and the methods that get or create it and its monitor.
--   Resources/OpenShift, Namespaces, Grants: openshift.go. OpenShift holds `finalizeForOpenshift`,
--     `updateClusterType` and `requireAnnotationsOf`, Namespaces the labels of a namespace, Grants
--     `updateForOpenshift` and `IsOpenShiftCluster`; Unread is on
--     what the finalization has read. Refusing is what the theorems ask of the creations there: one
--     that is refused because the object exists leaves the cluster as it is.
--   Resources/Servers, Reconcile: of smbshare.go the steps for a server's objects, and `Process`,
--     `Update` and `Finalize` as `process`, `update_share` and `finalize`. The children hold proofs:
--     what each step has read where the next follows, and how the three end. Those named Kept,
--     here and beside other steps, hold the converse: what a step finds in place it leaves so.
--   Resources/Once: steps that write at most once, whatever a write is; Written: the writes of the
--     operator. The children named Writes, and StepWrites and ReleaseWrites of Reconcile, apply
--     them to each step.
--   Controllers: main.go as `main` and controllers/smbshare_controller.go as `reconcile`; Started is
--     on the settings that the manager is started on.
--   Tests: the theorems at concrete resources and in a small cluster.
--
-- The client is a record of operations on a world `W`, any type, which each write replaces. A
-- theorem that says "whatever the cluster is by then" takes a second world.
--
-- All loops run over lists, so no function takes fuel, but for decimal numerals, whose fuel is the
-- number itself; `rounds` of Undone is given the number of calls, that of the objects found. The
-- order in which Go visits a map is open; here it is the order of the list, and the theorems that
-- depend on a map's content ask that no key is listed twice, as in any map.
-- A map of a configuration is never nil here, though JSON that leaves one out decodes to a nil map,
-- into which `Update` panics when it writes. Only the data of a config map may be nil.
-- Kubernetes' objects are the fields that the operator reads.
-- A reconciliation is sequential: what others do to the cluster within it is not told apart.
--
-- Not modelled: viper and pflag, which collect the settings from flags, files and the environment;
-- logging and events, which have no effect on the rest; the wiring of the controllers, which lists
-- for the controller runtime what to watch, and its own loop; generated code.
pub mod Base
pub mod Api
pub mod Conf
pub mod Smbcc
pub mod Planner
pub mod Resources
pub mod Controllers
mod Tests
