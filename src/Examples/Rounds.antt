-- ===== src/Examples/Rounds.antt =====
-- Rounds of the two controllers over tables in memory.
use mathlib.Core.Path.{subst}
use neutree.Prelude.{ap, arith, String, true, false, none, some, List, [], ◌∷◌, ◌≡◌, refl, is_nil}
use neutree.Prelude.Result.{Result, ok, err}
use neutree.Prelude.Dict.{lookup}
use neutree.Api.Meta.{Metadata, is_force_delete}
use neutree.Api.StaticNode.{StaticNode, StaticNodeSpec, worker}
use neutree.Api.StaticNodeCluster.{StaticNodeCluster}
use neutree.StaticCluster.Status.{listed}
use neutree.StaticCluster.Planner.Validity.{is_ok}
use neutree.StaticNode.Host.{Host}
use neutree.StaticNode.Removal.{
  static_node_delete_components, collect_specs, collect_statuses,
  append_static_node_delete_component,
}
use neutree.StaticNode.RunCommand.{shell_arg}
use neutree.StaticNode.Cleanup.{delete, remove_cluster_labeled_component_containers_command}
use neutree.StaticNode.Cleanup.Calls.{perform, delete_calls, verdict, delete-performs}
use neutree.Controllers.Cluster.{sync}
use neutree.Controllers.Isolation.Round.{sync-keeps_foreign}
use neutree.Controllers.Removal.{sync-keeps_cluster}
use neutree.Controllers.Node.{Runners, after_runner, reconcile_delete}
use neutree.Controllers.Node.Deletion.{
  HostLaws, RunnerLaws, reconcile_delete-keeps_row, reconcile_delete-gone,
}
use neutree.Controllers.Helpers.{hard_delete_static_node, prepare_static_node}
use neutree.Examples.Data.{
  cluster_from, metadata_of, node_of, spec_of, head_running, worker_running, worker_components,
}
use neutree.Examples.Plans.{planner}
use neutree.Examples.Tables.{Tables, tables, tables-StoreLaws, row-row_of}

abbrev others_spec : StaticNodeSpec
others_spec =
    let spec = spec_of "10.0.0.3" worker (worker_components "ray:v1") in
    record spec { cluster = "other" }

-- The row of another cluster, with its id.
abbrev others_node : StaticNode
others_node = let node = node_of "x" others_spec none in record node { id = 3 }

abbrev world : Tables
world = record {
  rows =
      none ∷ some (head_running "ray:v1") ∷ some (worker_running "ray:v1") ∷ some others_node ∷ [];
  clusters = 1 ∷ [];
  statuses = [];
}

abbrev clock : Tables → String
clock t = "2025-01-01T00:00:00Z"

sync-keeps_foreign_example :
    tables-StoreLaws.row (sync tables clock planner (listed []) (cluster_from "v1") world).0 3
    ≡ some others_node
sync-keeps_foreign_example =
    sync-keeps_foreign tables tables-StoreLaws clock planner (listed []) (cluster_from "v1") 3
      others_node world refl (row-row_of world 3)

abbrev deleted_metadata : Metadata
deleted_metadata =
    let metadata = metadata_of "c" in
    record metadata { deletion_timestamp = "2025-01-01T00:00:00Z" }

abbrev deleted_cluster : StaticNodeCluster
deleted_cluster = let cluster = cluster_from "v2" in record cluster { metadata = deleted_metadata }

sync-keeps_cluster_example :
    tables-StoreLaws.has_cluster (sync tables clock planner (listed []) deleted_cluster world).0 1
    ≡ tables-StoreLaws.has_cluster world 1
sync-keeps_cluster_example =
    sync-keeps_cluster tables tables-StoreLaws clock planner (listed []) deleted_cluster world 1
      (head_running "ray:v1") 1 (row-row_of world 1) refl

-- Every command fails.
abbrev broken_host : Host Tables
broken_host = record {
  run = λ t text. (t, err "connection lost");
  write_file_if_changed = λ t file. (t, ok false);
  remove_file = λ t file. (t, ok tt);
  http_get = λ t url timeout. (t, ok (200, "200 OK"));
}

abbrev first_of : List String → String
first_of [] = ""
first_of (text ∷ texts) = text

delete-performs_example :
    verdict (delete broken_host first_of (worker_running "ray:v1") world)
    ≡ perform broken_host (delete_calls (worker_running "ray:v1")) (world, true)
delete-performs_example =
    delete-performs broken_host first_of (worker_running "ray:v1")
      (spec_of "10.0.0.2" worker (worker_components "ray:v1")) world refl

abbrev runners : Runners Tables
runners = record {
  new_static_node_runner = λ node t. (t, ok broken_host);
  close = λ host t. t;
  clock = clock;
  aggregate = first_of;
}

abbrev or_host : Host Tables → Result (Host Tables) → Host Tables
or_host default (ok host) = host
or_host default (err error) = default

broken_host-HostLaws : HostLaws tables-StoreLaws broken_host
broken_host-HostLaws = record { runs = λ t command id. refl; removes = λ t file id. refl }

runner_laws : RunnerLaws tables-StoreLaws runners
runner_laws = record {
  opens = λ node t id. refl;
  opened = λ node t host e.
      subst (HostLaws tables-StoreLaws) (ap (or_host broken_host) e) broken_host-HostLaws;
  closes = λ host t id. refl;
}

reconcile_delete-keeps_row_example :
    (is_nil
        (tables-StoreLaws.row (reconcile_delete tables runners (worker_running "ray:v1") world).0 2)
      ≡ is_nil (tables-StoreLaws.row world 2))
    × (is_ok (reconcile_delete tables runners (worker_running "ray:v1") world).1 ≡ false)
unfolding is_force_delete lookup static_node_delete_components collect_specs collect_statuses
    append_static_node_delete_component remove_cluster_labeled_component_containers_command
    shell_arg
reconcile_delete-keeps_row_example =
    reconcile_delete-keeps_row tables tables-StoreLaws runners runner_laws (worker_running "ray:v1")
      world 2 refl refl

-- The host cannot be reached, and the deletion is forced.
abbrev lost : Runners Tables
lost = record runners { new_static_node_runner = λ node t. (t, err "no route to host") }

lost_laws : RunnerLaws tables-StoreLaws lost
lost_laws = record {
  opens = λ node t id. refl;
  opened = λ node t host e. absurd (ground (arith, e));
  closes = λ host t id. refl;
}

abbrev forced_metadata : Metadata
forced_metadata =
    let metadata = metadata_of "w" in
    record metadata { annotations = ("neutree.ai/force-delete", "true") ∷ [] }

abbrev forced_node : StaticNode
forced_node = let node = worker_running "ray:v1" in record node { metadata = forced_metadata }

reconcile_delete-gone_example :
    tables-StoreLaws.row (reconcile_delete tables lost forced_node world).0 1 ≡ none
unfolding reconcile_delete after_runner is_force_delete lookup hard_delete_static_node
    prepare_static_node
reconcile_delete-gone_example =
    reconcile_delete-gone tables tables-StoreLaws lost lost_laws forced_node world refl
