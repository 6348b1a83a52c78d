-- ===== src/StaticNode/Head.antt =====
-- reconciler.go and helper.go: the nodes of a cluster, and whether a worker waits for its head.
use neutree.Prelude.{
  String, Bool, true, false, not, ◌&&◌, Option, none, some, List, [], ◌∷◌, ◌==◌, ◌≡◌, refl, ap, ◌∙◌,
  arith, follow, if◌then◌else◌,
}
use neutree.Prelude.Result.{Result, ok, err, ◌>>=◌}
use neutree.Api.StaticNode.{StaticNode, StaticNodeSpec, StaticNodeStatus}
use neutree.StaticCluster.Names.{is_head, is_worker}
use neutree.StaticNode.Status.{is_ready}

-- `ListByCluster`: what the storage lists is filtered once more.
abbrev pub belongs_to : String → String → StaticNode → Bool
belongs_to workspace cluster_name node = elim node.spec [
  | none ↦ false
  | some spec ↦ node.metadata.workspace == workspace && spec.cluster == cluster_name
]

unfoldable pub keep_by_cluster : String → String → List StaticNode → List (Option StaticNode)
keep_by_cluster workspace cluster_name [] = []
keep_by_cluster workspace cluster_name (node ∷ nodes) =
    let rest = keep_by_cluster workspace cluster_name nodes in
    if belongs_to workspace cluster_name node then some node ∷ rest else rest

unfoldable pub list_by_cluster :
    (String → String → Result (List StaticNode))
    → String
    → String
    → Result (List (Option StaticNode))
unfolding keep_by_cluster
list_by_cluster list_static_node workspace cluster_name = do
  items ← list_static_node workspace cluster_name
  ok (keep_by_cluster workspace cluster_name items)

abbrev role_is_worker : Option StaticNodeSpec → Bool
role_is_worker none = false
role_is_worker (some spec) = is_worker spec.role

-- `node != nil && node.Spec != nil && node.Spec.Role == v1.StaticNodeRoleWorker`
abbrev pub is_worker_node : Option StaticNode → Bool
is_worker_node node = role_is_worker (follow node (λ n. n.spec))

-- The candidate's phase, where it is a head with a status.
abbrev head_status : Option StaticNode → Option StaticNodeStatus
head_status none = none
head_status (some node) = elim node.spec [
  | none ↦ none
  | some spec ↦ if is_head spec.role then node.status else none
]

-- The loop over the candidates: the first head with a status decides.
unfoldable pub first_head_ready : List (Option StaticNode) → Bool
first_head_ready [] = false
first_head_ready (candidate ∷ nodes) = elim (head_status candidate) [
  | none ↦ first_head_ready nodes
  | some status ↦ is_ready status.phase
]

-- `ClusterHeadReadyChecker.HeadReady`; a nil storage is `none`.
unfoldable pub head_ready :
    Option (String → String → Result (List StaticNode)) → Option StaticNode → Result Bool
unfolding list_by_cluster first_head_ready
head_ready storage none = ok true
head_ready storage (some node) = elim node.spec [
  | none ↦ ok true
  | some spec ↦ if not (is_worker spec.role) then ok true else elim storage [
    | none ↦ ok false
    | some list_static_node ↦ do
      nodes ← list_by_cluster list_static_node node.metadata.workspace spec.cluster
      ok (first_head_ready nodes)
  ]
]

-- `shouldWaitForHead`: whether to wait, and the error behind it.
unfoldable pub should_wait_for_head :
    Option (Option StaticNode → Result Bool) → Option StaticNode → Bool × Option String
should_wait_for_head checker node =
    if not (is_worker_node node) then (false, none) else elim checker [
      | none ↦ (false, none)
      | some head_ready ↦ elim (head_ready node) [
        | err error ↦ (true, some error)
        | ok ready ↦ (not ready, none)
      ]
    ]

-- What a node reports, if it is a head of that cluster.
abbrev pub status_as_head : String → String → StaticNode → Option StaticNodeStatus
status_as_head workspace cluster_name node = elim node.spec [
  | none ↦ none
  | some spec ↦
      if node.metadata.workspace == workspace && spec.cluster == cluster_name && is_head spec.role
      then node.status
      else none
]

-- The statuses of the heads of that cluster, of those that have one.
abbrev pub head_statuses : String → String → List StaticNode → List StaticNodeStatus
head_statuses workspace cluster_name [] = []
head_statuses workspace cluster_name (node ∷ nodes) =
    let rest = head_statuses workspace cluster_name nodes in
    elim (status_as_head workspace cluster_name node) [ none ↦ rest | some status ↦ status ∷ rest ]

abbrev pub starts_ready : List StaticNodeStatus → Bool
starts_ready [] = false
starts_ready (status ∷ statuses) = is_ready status.phase

-- The storage answers, and the first of the statuses of the cluster's heads is ready.
abbrev pub shows_ready_head : Result (List StaticNode) → String → String → Bool
shows_ready_head (err error) workspace cluster_name = false
shows_ready_head (ok nodes) workspace cluster_name =
    starts_ready (head_statuses workspace cluster_name nodes)

first_head-starts_ready :
    (workspace cluster_name : String) (nodes : List StaticNode)
    → first_head_ready (keep_by_cluster workspace cluster_name nodes)
      ≡ starts_ready (head_statuses workspace cluster_name nodes)
unfolding first_head_ready keep_by_cluster
first_head-starts_ready workspace cluster_name [] = refl
first_head-starts_ready workspace cluster_name (node ∷ nodes) =
    let rest = first_head-starts_ready workspace cluster_name nodes in ground (arith, rest)

abbrev is_ok_and {ℓ} : {A : Type ℓ} → (A → Bool) → Result A → Bool
is_ok_and test (ok a) = test a
is_ok_and test (err error) = false

first_head-shows :
    (list_static_node : String → String → Result (List StaticNode))
    (workspace cluster_name : String) (listed : Result (List StaticNode))
    → list_static_node workspace cluster_name ≡ listed
    → is_ok_and first_head_ready (list_by_cluster list_static_node workspace cluster_name)
      ≡ shows_ready_head listed workspace cluster_name
unfolding list_by_cluster
first_head-shows list_static_node workspace cluster_name (err error) e = rw e refl
first_head-shows list_static_node workspace cluster_name (ok nodes) e =
    rw e (first_head-starts_ready workspace cluster_name nodes)

waits-is_ok_and :
    (list_static_node : String → String → Result (List StaticNode)) (node : StaticNode)
    (spec : StaticNodeSpec)
    → node.spec ≡ some spec
    → (should_wait_for_head (some (head_ready (some list_static_node))) (some node)).0 ≡ (
        is_worker spec.role
        && not (
            is_ok_and first_head_ready
              (list_by_cluster list_static_node node.metadata.workspace spec.cluster)))
unfolding should_wait_for_head head_ready
waits-is_ok_and list_static_node node spec e = rw e (ground arith)

-- A worker waits exactly when the storage cannot be listed or the first status that a head of its
-- cluster has is not ready, none being there included; a node of another role never waits.
pub should_wait-head_ready :
    (list_static_node : String → String → Result (List StaticNode)) (node : StaticNode)
    (spec : StaticNodeSpec)
    → node.spec ≡ some spec
    → (should_wait_for_head (some (head_ready (some list_static_node))) (some node)).0 ≡ (
        is_worker spec.role
        && not (
            shows_ready_head
              (list_static_node node.metadata.workspace spec.cluster)
              node.metadata.workspace
              spec.cluster))
should_wait-head_ready list_static_node node spec e =
    waits-is_ok_and list_static_node node spec e
    ∙ ap (λ b. is_worker spec.role && not b)
        (first_head-shows list_static_node node.metadata.workspace spec.cluster _ refl)
