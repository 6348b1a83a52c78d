-- ===== src/Lib.antt =====
-- Neutree: the static-node clusters of its control plane.
--
-- A static-node cluster is a list of machines, one of them the head, on which the controllers
-- run Ray and its companions as Docker containers. Two controllers work on it. The cluster
-- controller plans the desired state of every node (internal/cluster/staticcluster/planner.go),
-- stages it while the cluster moves from one version to another (upgrade.go), writes it to the
-- nodes, and reports a status put together from what the nodes report (status.go). The node
-- controller brings one machine to its desired state (internal/cluster/staticnode/reconciler.go,
-- docker_runtime.go, component_files.go) and reports the status of the node (status.go). The two
-- meet in the records of api/v1: the spec of a node is written by the first and read by the
-- second, its status the other way round.
--
-- The files and the code they model:
-- - Prelude: library names passed on, tests, lists, sorting, texts, association lists, Go's
--   integers and its pairs of a value and an error. Strings: functions of Go's strings and
--   encoding/json.
-- - Api: the records of api/v1. A pointer is an Option, a map an association list with one entry
--   for a key, a slice a list. Where reflect.DeepEqual compares specs, which of their empty
--   slices and maps are allocated is kept beside them (Allocated), and maps are compared without
--   their order; elsewhere a slice is an Option of a list where a nil one is tested for. The
--   status of a node is compared by what it holds, which decides only whether an equal status is
--   written again.
-- - Image: internal/util/image.go (RewriteImageRef, BuildClusterImageRef).
-- - StaticCluster: internal/cluster/staticcluster and internal/cluster/staticcomponent. Names
--   (helpers.go and the functions on names of the other files), Plan (DesiredNodePlan and its
--   components), Observed and Upgrade (upgrade.go: the step of an upgrade, and the plans it
--   stages), Messages, StatusText, Context and Status (status.go: Aggregate,
--   RequireRayClusterReady), Hashes (staticcomponent/hash.go), RayRuntime (components.go),
--   Metrics (metrics_components.go: the exporters; Metrics/Components the agents and the whole
--   list, Metrics/Targets the targets and their groups, Metrics/Files the configuration and the
--   files of vmagent), NodePlan and Planner (planner.go: Plan, buildDesiredNodePlans, and
--   attachMetricsConfigFiles of metrics_components.go). The theorems stand in the child modules
--   Upgrade/*, Status/*, Planner/* and RayRuntime/Warm.
-- - StaticNode: internal/cluster/staticnode. Status (status.go: BuildStatus), Head
--   (ListByCluster, HeadReady, shouldWaitForHead), Devices (ReconcileAccelerator,
--   ReconcileNodeDeviceSnapshot), Removal (staticNodeDeleteComponents), Host (commands, files
--   and HTTP as functions on the state of the host), RunCommand and Docker (docker_runtime.go;
--   Quoting reads the arguments as a shell does), Login (the login to a registry), Warm
--   (ReconcileWarmImages), Health (checkComponentHealth) and Components (ReconcileComponents,
--   reconcileComponent, stopStaleComponents). Status/Ready, Components/Running and
--   Components/Stopping have theorems on the status and on the rounds over components. Cleanup
--   is the removal of a node from its host (Reconciler.Delete, removeComponentConfigFiles);
--   Cleanup/Calls says which calls it makes.
-- - Store: the tables of nodes and clusters as operations on a state (pkg/storage/storage.go),
--   with the laws on the rows that the theorems on rounds use.
-- - Controllers: controllers/static_node_helpers.go (Helpers), static_node_cluster_controller.go
--   (Cluster: sync, reconcileNormal, reconcileDelete) and the deletion of
--   static_node_controller.go (Node: reconcileDelete). Keeping has rules for what a sequence of
--   calls keeps, Rounds what a round keeps from what its calls keep; Isolation, Removal and
--   Node/Deletion have the theorems.
-- - Progress: the plan of a worker, the round on its host and the status it reports, put
--   together.
-- - Examples: one cluster of a head and a worker, and tables in memory that keep the laws of the
--   store (Tables), at which the theorems are applied.
--
-- State and errors. A function that changes a node or a plan in place returns the changed one.
-- The reconciler of a node works on the state of its host, which every command takes and gives
-- back with its result; a Go error is a Failure, with the reason of a DockerError where it has
-- one. Errors that the code handles are values: a report stands beside the error it returns. The
-- order of commands is the order in which the state is handed on. Loops are structural
-- recursions on the list that the code ranges over, with the variables that the loop changes as
-- arguments, so that nothing runs on fuel but the printing of a decimal number, which is given
-- one step more than its value.
--
-- Parameters. The runner of commands, the file client and the network (Host), the fingerprint
-- (SHA-256 of a JSON text), the accelerator plugins, the storage, the clock, and the list of
-- nodes that Ray's dashboard answers are given. So are url.Parse, strconv.Quote and the JSON
-- text of a list of targets (MetricsLibrary), base64 and the reading of Docker's configuration
-- (Encoding). Texts are lists of characters; Go compares them by bytes, which for valid UTF-8 is
-- the order of the characters. A round of a controller runs alone: the store changes by its own
-- calls only.
--
-- Not modelled: the normal round of the node controller, which calls the modelled parts in turn
-- and needs the credentials of a registry from the storage, the HTTP client for device
-- snapshots, log lines, and the rest of the repository: Kubernetes clusters, endpoints, the
-- gateway, the API server, the command line, and the parts in SQL, Lua and Python.
pub mod Prelude
pub mod Strings
pub mod Api
pub mod Image
pub mod StaticCluster
pub mod StaticNode
pub mod Store
pub mod Controllers
pub mod Progress
pub mod Examples
