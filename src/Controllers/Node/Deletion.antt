-- ===== src/Controllers/Node/Deletion.antt =====
-- When the row of a node may go.
use neutree.Prelude.{
  ℕ, String, Bool, true, false, Option, none, some, List, [], ◌∷◌, ◌≡◌, refl, sym, ap, ◌∙◌, is_nil,
  ◌||◌, arith, Bool-cases, Option-cases, inl, inr, if◌then◌else◌,
}
use neutree.Prelude.Result.{Result, ok, err}
use neutree.Api.Meta.{is_force_delete}
use neutree.Api.Component.{NodeComponentConfigFile}
use neutree.Api.StaticNode.{StaticNode, StaticNodeStatus}
use neutree.StaticNode.Host.{Host}
use neutree.StaticNode.Status.{build_status}
use neutree.StaticNode.Cleanup.{delete}
use neutree.StaticNode.Cleanup.Calls.{
  Call, run_command, remove_config, call, checked, perform, delete_calls, delete-performs,
  delete-eq_nothing,
}
use neutree.StaticCluster.Planner.Validity.{is_ok}
use neutree.Store.{Store, StoreLaws}
use neutree.Controllers.Helpers.{
  hard_delete_static_node, update_static_node_status, prepare_static_node, same_status,
}
use neutree.Controllers.Node.{
  Runners, update_failed_status, closed, after_cleanup, after_runner, reconcile_delete,
}

-- What is done on a host is apart from the tables.
pub record HostLaws {S : Type 0} {store : Store S} (laws : StoreLaws store) (host : Host S)
    : Type 0 where
  pub runs :
      (s : S) (command : String) (id : ℕ) → laws.row (host.run s command).0 id ≡ laws.row s id
  pub removes :
      (s : S) (file : NodeComponentConfigFile) (id : ℕ)
      → laws.row (host.remove_file s file).0 id ≡ laws.row s id

-- So are the connections to the hosts.
pub record RunnerLaws {S : Type 0} {store : Store S} (laws : StoreLaws store) (runners : Runners S)
    : Type 0 where
  pub opens :
      (node : StaticNode) (s : S) (id : ℕ)
      → laws.row (runners.new_static_node_runner node s).0 id ≡ laws.row s id
  pub opened :
      (node : StaticNode) (s : S) (host : Host S)
      → (runners.new_static_node_runner node s).1 ≡ ok host
      → HostLaws laws host
  pub closes : (host : Host S) (s : S) (id : ℕ) → laws.row (runners.close host s) id ≡ laws.row s id

-- Every call of the removal from the host succeeded, on a runner that could be created.
abbrev pub is_cleaned : {S : Type 0} → StaticNode → S × Result (Host S) → Bool
is_cleaned node (s, err error) = false
is_cleaned node (s, ok host) = is_nil node.spec || (perform host (delete_calls node) (s, true)).1

delete-cleaned :
    {S : Type 0} (host : Host S) (aggregate : List String → String) (node : StaticNode) (s : S)
    → is_nil (delete host aggregate node s).1 ≡ is_cleaned node (s, ok host)
delete-cleaned host aggregate node s = elim (Option-cases node.spec) [
  | inl e ↦
      let done = delete-eq_nothing host aggregate node s e in
      let nothing : is_nil node.spec ≡ true = ap is_nil e in
      ap (λ p. is_nil p.1) done
      ∙ sym (ap (λ b. b || (perform host (delete_calls node) (s, true)).1) nothing)
  | inr (spec, e) ↦
      let something : is_nil node.spec ≡ false = ap is_nil e in
      ap (λ p. p.1) (delete-performs host aggregate node spec s e)
      ∙ sym (ap (λ b. b || (perform host (delete_calls node) (s, true)).1) something)
]

module _ {S : Type 0} (store : Store S) (laws : StoreLaws store) (runners : Runners S)
    (runner_laws : RunnerLaws laws runners) (id : ℕ) where
  checked-row :
      {A : Type 0} (good : Bool) (o : S × Result A)
      → laws.row (checked good o).0 id ≡ laws.row o.0 id
  checked-row good (s, ok a) = refl
  checked-row good (s, err error) = refl

  call-row :
      (host : Host S) (host_laws : HostLaws laws host) (c : Call) (done : S × Bool)
      → laws.row (call host c done).0 id ≡ laws.row done.0 id
  call-row host host_laws (run_command command) (s, good) =
      checked-row good (host.run s command) ∙ host_laws.runs s command id
  call-row host host_laws (remove_config file) (s, good) =
      checked-row good (host.remove_file s file) ∙ host_laws.removes s file id

  perform-row :
      (host : Host S) (host_laws : HostLaws laws host) (cs : List Call) (done : S × Bool)
      → laws.row (perform host cs done).0 id ≡ laws.row done.0 id
  perform-row host host_laws [] done = refl
  perform-row host host_laws (c ∷ cs) done =
      perform-row host host_laws cs (call host c done) ∙ call-row host host_laws c done

  delete-row :
      (host : Host S) (host_laws : HostLaws laws host) (node : StaticNode) (s : S)
      → laws.row (delete host runners.aggregate node s).0 id ≡ laws.row s id
  delete-row host host_laws node s = elim (Option-cases node.spec) [
    | inl e ↦ ap (λ p. laws.row p.0 id) (delete-eq_nothing host runners.aggregate node s e)
    | inr (spec, e) ↦
        ap (λ p. laws.row p.0 id) (delete-performs host runners.aggregate node spec s e)
        ∙ perform-row host host_laws (delete_calls node) (s, true)
  ]

  update_status-presence :
      (node : StaticNode) (status : StaticNodeStatus) (s : S)
      → is_nil (laws.row (update_static_node_status store node status s).0 id)
        ≡ is_nil (laws.row s id)
  unfolding update_static_node_status
  update_status-presence node status s = elim (Bool-cases (same_status node.status status)) [
    | inl e ↦ rw (e, update_static_node_status) refl
    | inr e ↦ rw (e, update_static_node_status) (laws.update_presence _ _ s id)
  ]

  -- An error is written and given back, and the rows stay.
  record Refused (s : S) (o : S × Result (Unit {0})) : Type 0 where
    presence : is_nil (laws.row o.0 id) ≡ is_nil (laws.row s id)
    failing : is_ok o.1 ≡ false

  update_failed-Refused :
      (node : StaticNode) (error : String) (s : S)
      → Refused s (update_failed_status store runners node error s)
  unfolding update_failed_status
  update_failed-Refused node error s = record {
    presence =
        update_status-presence node (build_status (runners.clock s) (some node) none (some error))
          s;
    failing = refl;
  }

  from_before :
      (s t : S) (o : S × Result (Unit {0}))
      → laws.row t id ≡ laws.row s id
      → Refused t o
      → Refused s o
  from_before s t o same refused = record {
    presence = refused.presence ∙ ap is_nil same;
    failing = refused.failing;
  }

  after_cleanup-Refused :
      (node : StaticNode) (host : Host S) (d : S × Option String)
      → is_force_delete node.metadata.annotations ≡ false
      → is_nil d.1 ≡ false
      → Refused d.0 (after_cleanup store runners node host d)
  unfolding after_cleanup
  after_cleanup-Refused node host (s, none) careful failing = absurd (ground (arith, failing))
  after_cleanup-Refused node host (s, some error) careful failing = rw careful (
      from_before s (runners.close host s) _ (runner_laws.closes host s id)
        (update_failed-Refused node error (runners.close host s)))

  after_runner-Refused :
      (node : StaticNode) (o : S × Result (Host S))
      → is_force_delete node.metadata.annotations ≡ false
      → is_cleaned node o ≡ false
      → ((host : Host S) → o.1 ≡ ok host → HostLaws laws host)
      → Refused o.0 (after_runner store runners node o)
  unfolding after_runner
  after_runner-Refused node (s, ok host) careful failing laws_of =
      from_before s _ _ (delete-row host (laws_of host refl) node s) (
        after_cleanup-Refused node host (delete host runners.aggregate node s) careful
          (delete-cleaned host runners.aggregate node s ∙ failing))
  after_runner-Refused node (s, err error) careful failing laws_of =
      rw careful (update_failed-Refused node _ s)

  reconcile-Refused :
      (node : StaticNode) (s : S)
      → is_force_delete node.metadata.annotations ≡ false
      → is_cleaned node (runners.new_static_node_runner node s) ≡ false
      → Refused s (reconcile_delete store runners node s)
  unfolding reconcile_delete
  reconcile-Refused node s careful failing = from_before s _ _ (runner_laws.opens node s id) (
      after_runner-Refused node (runners.new_static_node_runner node s) careful failing
        (runner_laws.opened node s))

-- Where the deletion is not forced and the node's host could not be reached or a call of the
-- cleaning failed, every row of the table is still a row afterwards, the node's among them, and the
-- round ends with an error.
pub reconcile_delete-keeps_row :
    {S : Type 0} (store : Store S) (laws : StoreLaws store) (runners : Runners S)
    (runner_laws : RunnerLaws laws runners) (node : StaticNode) (s : S) (id : ℕ)
    → is_force_delete node.metadata.annotations ≡ false
    → is_cleaned node (runners.new_static_node_runner node s) ≡ false
    → (is_nil (laws.row (reconcile_delete store runners node s).0 id) ≡ is_nil (laws.row s id))
      × (is_ok (reconcile_delete store runners node s).1 ≡ false)
reconcile_delete-keeps_row store laws runners runner_laws node s id careful failing =
    let refused = reconcile-Refused store laws runners runner_laws id node s careful failing in
    (refused.presence, refused.failing)

module _ {S : Type 0} (store : Store S) (laws : StoreLaws store) (runners : Runners S)
    (runner_laws : RunnerLaws laws runners) (node : StaticNode) where
  -- An end without an error leaves no row of the node.
  record Gone (o : S × Result (Unit {0})) : Type 0 where
    gone : is_ok o.1 ≡ true → laws.row o.0 node.id ≡ none

  unit_ok : (r : Result (Unit {0})) → is_ok r ≡ true → r ≡ ok tt
  unit_ok (ok u) e = refl
  unit_ok (err error) e = absurd (ground (arith, e))

  hard_delete-Gone : (s : S) → Gone (hard_delete_static_node store node s)
  unfolding hard_delete_static_node prepare_static_node
  hard_delete-Gone s = record { gone = λ good. laws.delete_gone node.id s (unit_ok _ good) }

  closed-Gone :
      (host : Host S) (o : S × Result (Unit {0})) → Gone o → Gone (closed store runners host o)
  closed-Gone host o h = record { gone = λ good. runner_laws.closes host o.0 node.id ∙ h.gone good }

  update_failed-Gone :
      (error : String) (s : S) → Gone (update_failed_status store runners node error s)
  unfolding update_failed_status
  update_failed-Gone error s = record { gone = λ good. absurd (ground (arith, good)) }

  Gone-if :
      (test : Bool) (o p : S × Result (Unit {0})) → Gone o → Gone p → Gone (if test then o else p)
  Gone-if true o p h k = h
  Gone-if false o p h k = k

  after_cleanup-Gone :
      (host : Host S) (d : S × Option String) → Gone (after_cleanup store runners node host d)
  unfolding after_cleanup
  after_cleanup-Gone host (s, none) = closed-Gone host _ (hard_delete-Gone s)
  after_cleanup-Gone host (s, some error) =
      Gone-if (is_force_delete node.metadata.annotations) _ _
        (closed-Gone host _ (hard_delete-Gone s)) (update_failed-Gone error (runners.close host s))

  after_runner-Gone : (o : S × Result (Host S)) → Gone (after_runner store runners node o)
  unfolding after_runner
  after_runner-Gone (s, ok host) = after_cleanup-Gone host (delete host runners.aggregate node s)
  after_runner-Gone (s, err error) =
      Gone-if (is_force_delete node.metadata.annotations) _ _ (hard_delete-Gone s)
        (update_failed-Gone _ s)

-- A round of deletion that ends without an error has removed the row of the node.
pub reconcile_delete-gone :
    {S : Type 0} (store : Store S) (laws : StoreLaws store) (runners : Runners S)
    (runner_laws : RunnerLaws laws runners) (node : StaticNode) (s : S)
    → is_ok (reconcile_delete store runners node s).1 ≡ true
    → laws.row (reconcile_delete store runners node s).0 node.id ≡ none
unfolding reconcile_delete
reconcile_delete-gone store laws runners runner_laws node s good =
    (after_runner-Gone store laws runners runner_laws node
        (runners.new_static_node_runner node s)).gone
      good
