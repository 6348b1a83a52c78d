-- ===== src/Examples/Tables.antt =====
-- A store in memory, which keeps the laws of Store: a node stands at the place of its id.
use mathlib.Core.List.{append_assoc}
use mathlib.Core.Path.{subst}
use neutree.Prelude.{
  ℕ, zero, suc, ◌+◌, String, Bool, true, false, not, Option, none, some, List, [], ◌∷◌, ◌++◌, ◌≡◌,
  ◌≢◌, refl, sym, ap, ◌∙◌, ◌==◌, All, Among, any, all, keep, is_nil, length, length-append, nat_eq,
  arith, inl, inr, if◌then◌else◌, Bool-cases,
}
use neutree.Prelude.Result.{Result, ok, err}
use neutree.Api.StaticNode.{StaticNode, StaticNodeSpec, StaticNodeStatus}
use neutree.Api.StaticNodeCluster.{StaticNodeClusterStatus}
use neutree.StaticNode.Head.{belongs_to}
use neutree.Store.{Store, StoreLaws, NodePatch, Filter, cluster_filters}

pub record Tables : Type 0 where
  pub rows : List (Option StaticNode)
  pub clusters : List ℕ
  pub statuses : List (ℕ × StaticNodeClusterStatus)

abbrev with_id : ℕ → StaticNode → StaticNode
with_id id node = record node { id = id }

abbrev served : ℕ → Option StaticNode → Option StaticNode
served id none = none
served id (some node) = some (with_id id node)

abbrev nth : List (Option StaticNode) → ℕ → Option StaticNode
nth [] i = none
nth (x ∷ xs) zero = x
nth (x ∷ xs) (suc i) = nth xs i

abbrev set_at :
    ℕ
    → (Option StaticNode → Option StaticNode)
    → List (Option StaticNode)
    → List (Option StaticNode)
set_at i f [] = []
set_at zero f (x ∷ xs) = f x ∷ xs
set_at (suc i) f (x ∷ xs) = x ∷ set_at i f xs

abbrev enumerate : ℕ → List (Option StaticNode) → List StaticNode
enumerate k [] = []
enumerate k (none ∷ xs) = enumerate (suc k) xs
enumerate k (some node ∷ xs) = with_id k node ∷ enumerate (suc k) xs

abbrev column_is : StaticNode → Filter → Bool
column_is node filter =
    if filter.column == "metadata->>workspace"
    then node.metadata.workspace == filter.value
    else if filter.column == "metadata->>name"
    then node.metadata.name == filter.value
    else elim node.spec [ none ↦ false | some spec ↦ spec.cluster == filter.value ]

abbrev pub row_of : Tables → ℕ → Option StaticNode
row_of t id = served id (nth t.rows id)

abbrev or_old : {A : Type 0} → Option A → A → A
or_old none old = old
or_old (some new) old = new

abbrev or_spec : Option StaticNodeSpec → Option StaticNodeSpec → Option StaticNodeSpec
or_spec none old = old
or_spec (some new) old = some new

abbrev or_status : Option StaticNodeStatus → Option StaticNodeStatus → Option StaticNodeStatus
or_status none old = old
or_status (some new) old = some new

abbrev patched : NodePatch → Option StaticNode → Option StaticNode
patched patch none = none
patched patch (some node) = some (record node {
  metadata = or_old patch.metadata node.metadata;
  spec = or_spec patch.spec node.spec;
  status = or_status patch.status node.status;
})

abbrev pub tables : Store Tables
tables = record {
  list_static_node =
      λ filters t. (t, ok (keep (λ node. all (column_is node) filters) (enumerate 0 t.rows)));
  create_static_node = λ node t. (record t { rows = t.rows ++ some node ∷ [] }, ok tt);
  update_static_node = λ id patch t. (record t { rows = set_at id (patched patch) t.rows }, ok tt);
  delete_static_node = λ id t. (record t { rows = set_at id (λ x. none) t.rows }, ok tt);
  update_static_node_cluster =
      λ id status t. (record t { statuses = (id, status) ∷ t.statuses }, ok tt);
  delete_static_node_cluster =
      λ id t. (record t { clusters = keep (λ c. not (nat_eq c id)) t.clusters }, ok tt);
}

nth-append :
    (before after : List (Option StaticNode)) (x : Option StaticNode)
    → nth (before ++ x ∷ after) (length before) ≡ x
nth-append [] after x = refl
nth-append (y ∷ before) after x = nth-append before after x

step_on :
    (before after whole : List (Option StaticNode)) (x : Option StaticNode)
    → whole ≡ before ++ x ∷ after
    → whole ≡ (before ++ x ∷ []) ++ after
step_on before after whole x e = e ∙ sym (append_assoc before (x ∷ []) after)

enumerate-rows :
    (whole before after : List (Option StaticNode)) (k : ℕ)
    → whole ≡ before ++ after
    → k ≡ length before
    → All (λ node. served node.id (nth whole node.id) ≡ some node) (enumerate k after)
enumerate-rows whole before [] k e n = tt
enumerate-rows whole before (none ∷ after) k e n =
    enumerate-rows whole (before ++ none ∷ []) after (suc k) (step_on before after whole none e)
      (omega (arith, n, length-append before (none ∷ [])))
enumerate-rows whole before (some node ∷ after) k e n = (
  rw e (rw n (ap (served (length before)) (nth-append before after (some node)))),
  enumerate-rows whole (before ++ some node ∷ []) after (suc k)
      (step_on before after whole (some node) e)
      (omega (arith, n, length-append before (some node ∷ []))),
)

set_at-frame :
    (i : ℕ) (f : Option StaticNode → Option StaticNode) (xs : List (Option StaticNode)) (j : ℕ)
    → j ≢ i
    → nth (set_at i f xs) j ≡ nth xs j
set_at-frame i f [] j differ = refl
set_at-frame zero f (x ∷ xs) zero differ = absurd (differ refl)
set_at-frame zero f (x ∷ xs) (suc j) differ = refl
set_at-frame (suc i) f (x ∷ xs) zero differ = refl
set_at-frame (suc i) f (x ∷ xs) (suc j) differ = set_at-frame i f xs j (λ e. differ (ap suc e))

append-row :
    (xs ys : List (Option StaticNode)) (i id : ℕ) (old : StaticNode)
    → served id (nth xs i) ≡ some old
    → served id (nth (xs ++ ys) i) ≡ some old
append-row [] ys i id old h = absurd (ground (arith, h))
append-row (x ∷ xs) ys zero id old h = h
append-row (x ∷ xs) ys (suc i) id old h = append-row xs ys i id old h

some_inj : {a b : StaticNode} → some a ≡ some b → a ≡ b
some_inj {a} h = ap (λ o. elim o [ none ↦ a | some x ↦ x ]) h

abbrev nodes_or : List StaticNode → Result (List StaticNode) → List StaticNode
nodes_or default (ok nodes) = nodes
nodes_or default (err error) = default

ok_inj : {a b : List StaticNode} → ok a ≡ ok b → a ≡ b
ok_inj {a} h = ap (nodes_or a) h

enumerate-all :
    (k : ℕ) (xs : List (Option StaticNode)) (i id : ℕ) (node : StaticNode)
    → id ≡ k + i
    → served id (nth xs i) ≡ some node
    → Among node (enumerate k xs)
enumerate-all k [] i id node e h = absurd (ground (arith, h))
enumerate-all k (none ∷ xs) zero id node e h = absurd (ground (arith, h))
enumerate-all k (none ∷ xs) (suc i) id node e h =
    enumerate-all (suc k) xs i id node (omega (arith, e)) h
enumerate-all k (some found ∷ xs) zero id node e h =
    let same : id ≡ k = omega (arith, e) in inl (sym (some_inj h) ∙ ap (λ n. with_id n found) same)
enumerate-all k (some found ∷ xs) (suc i) id node e h =
    inr (enumerate-all (suc k) xs i id node (omega (arith, e)) h)

All-keep :
    (P : StaticNode → Type 0) (p : StaticNode → Bool) (xs : List StaticNode)
    → All P xs
    → All P (keep p xs)
All-keep P p [] h = tt
All-keep P p (x ∷ xs) h = elim (Bool-cases (p x)) [
  | inl e ↦ rw e (h.0, All-keep P p xs h.1)
  | inr e ↦ rw e (All-keep P p xs h.1)
]

Among-keep :
    (p : StaticNode → Bool) (node : StaticNode) (xs : List StaticNode)
    → Among node xs
    → p node ≡ true
    → Among node (keep p xs)
Among-keep p node [] h e = absurd h
Among-keep p node (x ∷ xs) (inl same) e = let here = ap p (sym same) ∙ e in rw here (inl same)
Among-keep p node (x ∷ xs) (inr h) e = elim (Bool-cases (p x)) [
  | inl f ↦ rw f (inr (Among-keep p node xs h e))
  | inr f ↦ rw f (Among-keep p node xs h e)
]

belongs-columns :
    (workspace name : String) (node : StaticNode)
    → belongs_to workspace name node ≡ true
    → all (column_is node) (cluster_filters workspace name) ≡ true
belongs-columns workspace name node h = ground (arith, h)

served-nil : (id : ℕ) (o : Option StaticNode) → is_nil (served id o) ≡ is_nil o
served-nil id none = refl
served-nil id (some node) = refl

patched-nil : (patch : NodePatch) (o : Option StaticNode) → is_nil (patched patch o) ≡ is_nil o
patched-nil patch none = refl
patched-nil patch (some node) = refl

presence :
    (i : ℕ) (patch : NodePatch) (xs : List (Option StaticNode)) (j id : ℕ)
    → is_nil (served id (nth (set_at i (patched patch) xs) j)) ≡ is_nil (served id (nth xs j))
presence i patch [] j id = refl
presence zero patch (x ∷ xs) zero id =
    served-nil id (patched patch x) ∙ patched-nil patch x ∙ sym (served-nil id x)
presence zero patch (x ∷ xs) (suc j) id = refl
presence (suc i) patch (x ∷ xs) zero id = refl
presence (suc i) patch (x ∷ xs) (suc j) id = presence i patch xs j id

set_at-none :
    (i : ℕ) (xs : List (Option StaticNode)) (id : ℕ)
    → served id (nth (set_at i (λ x. none) xs) i) ≡ none
set_at-none i [] id = refl
set_at-none zero (x ∷ xs) id = refl
set_at-none (suc i) (x ∷ xs) id = set_at-none i xs id

pub tables-StoreLaws : StoreLaws tables
tables-StoreLaws = record {
  row = row_of;
  has_cluster = λ t id. any (nat_eq id) t.clusters;
  list_same = λ filters t. refl;
  list_rows = λ filters t nodes e. subst (All (λ node. row_of t node.id ≡ some node)) (ok_inj e) (
      All-keep _ (λ node. all (column_is node) filters) (enumerate 0 t.rows)
        (enumerate-rows t.rows [] t.rows 0 refl refl));
  list_all = λ workspace name t nodes id node e h mine. subst (Among node) (ok_inj e) (
      Among-keep (λ n. all (column_is n) (cluster_filters workspace name)) node (enumerate 0 t.rows)
        (enumerate-all 0 t.rows id id node (omega arith) h)
        (belongs-columns workspace name node mine));
  create_keeps = λ node t id old new h. append-row t.rows (some node ∷ []) id id old h;
  update_frame = λ id patch t other differ.
      ap (served other) (set_at-frame id (patched patch) t.rows other differ);
  update_presence = λ id patch t other. presence id patch t.rows other other;
  delete_gone = λ id t e. set_at-none id t.rows id;
  delete_frame =
      λ id t other differ. ap (served other) (set_at-frame id (λ x. none) t.rows other differ);
  update_cluster_rows = λ id status t other. refl;
  delete_cluster_rows = λ id t other. refl;
  create_clusters = λ node t id. refl;
  update_clusters = λ id patch t other. refl;
  update_cluster_clusters = λ id status t other. refl;
}

pub row-row_of : (t : Tables) (id : ℕ) → tables-StoreLaws.row t id ≡ row_of t id
unfolding tables-StoreLaws
row-row_of t id = refl
