-- ===== src/StaticCluster/Metrics/Targets/Groups.antt =====
-- What the groups of exporter targets hold.
use mathlib.Core.List.{append_assoc, append-nil}
use neutree.Prelude.{
  String, Option, none, some, List, [], ◌∷◌, ◌++◌, ◌≡◌, refl, sym, ap, ◌∙◌, ◌==◌, keep, Bool-cases,
  Option-cases, inl, inr, eq_iff, if◌then◌else◌,
}
use neutree.Prelude.Dict.{lookup, lookup-insert}
use neutree.StaticCluster.Plan.{DesiredNodePlan}
use neutree.StaticCluster.Metrics.Targets.{
  AcceleratorExporterTarget, AcceleratorExporterTargetGroup, Groups, group_of, add_target,
  managed_target, managed_groups,
}

-- The targets of the group of a type, none where there is no group.
abbrev targets_of : Option AcceleratorExporterTargetGroup → List AcceleratorExporterTarget
targets_of none = []
targets_of (some group) = group.targets

abbrev pub targets_at : String → Groups → List AcceleratorExporterTarget
unfolding lookup
targets_at type groups = targets_of (lookup type groups)

abbrev pub add_found :
    Option (AcceleratorExporterTarget × String)
    → List AcceleratorExporterTarget
    → List AcceleratorExporterTarget
add_found none targets = targets
add_found (some found) targets = found.0 ∷ targets

-- What the plans give, in their order.
abbrev pub managed_targets : List DesiredNodePlan → List AcceleratorExporterTarget
unfolding managed_target
managed_targets [] = []
managed_targets (plan ∷ plans) = add_found (managed_target plan) (managed_targets plans)

abbrev pub of_type : String → List AcceleratorExporterTarget → List AcceleratorExporterTarget
of_type type = keep (λ target. target.accelerator_type == type)

group_of-targets :
    (type path : String) (old : Option AcceleratorExporterTargetGroup)
    → (group_of type path old).targets ≡ targets_of old
unfolding group_of
group_of-targets type path none = refl
group_of-targets type path (some group) = refl

add-targets_at :
    (target : AcceleratorExporterTarget) (path : String) (groups : Groups) (type : String)
    → targets_at type (add_target target path groups)
      ≡ targets_at type groups ++ of_type type (target ∷ [])
unfolding add_target targets_at
add-targets_at target path groups type =
    let key = target.accelerator_type in
    let group = group_of key path (lookup key groups) in
    let value = record group { targets = group.targets ++ target ∷ [] } in
    let read = lookup-insert groups key value type in
    elim (Bool-cases (key == type)) [
      | inl e ↦
          let same : key ≡ type = (eq_iff key type).0 e in
          ap targets_of (read ∙ ap (λ b. if b then some value else lookup type groups) e)
          ∙ ap (λ ts. ts ++ target ∷ [])
              (group_of-targets key path (lookup key groups)
                ∙ ap (λ k. targets_of (lookup k groups)) same)
          ∙ ap (λ b. targets_of (lookup type groups) ++ (if b then target ∷ [] else [])) (sym e)
      | inr e ↦
          ap targets_of (read ∙ ap (λ b. if b then some value else lookup type groups) e)
          ∙ sym (append-nil (targets_of (lookup type groups)))
          ∙ ap (λ b. targets_of (lookup type groups) ++ (if b then target ∷ [] else [])) (sym e)
    ]

keep_cons :
    (type : String) (target : AcceleratorExporterTarget) (targets : List AcceleratorExporterTarget)
    → of_type type (target ∷ []) ++ of_type type targets ≡ of_type type (target ∷ targets)
keep_cons type target targets = elim (Bool-cases (target.accelerator_type == type)) [
  | inl e ↦ rw e refl
  | inr e ↦ rw e refl
]

managed_groups-from :
    (plans : List DesiredNodePlan) (groups : Groups) (type : String)
    → targets_at type (managed_groups groups plans)
      ≡ targets_at type groups ++ of_type type (managed_targets plans)
unfolding managed_groups managed_targets
managed_groups-from [] groups type = sym (append-nil (targets_at type groups))
managed_groups-from (plan ∷ plans) groups type = elim (Option-cases (managed_target plan)) [
  | inl e ↦ rw e (managed_groups-from plans groups type)
  | inr (found, e) ↦ rw e (
      managed_groups-from plans (add_target found.0 found.1 groups) type
      ∙ ap (λ ts. ts ++ of_type type (managed_targets plans))
          (add-targets_at found.0 found.1 groups type)
      ∙ append_assoc (targets_at type groups) (of_type type (found.0 ∷ []))
          (of_type type (managed_targets plans))
      ∙ ap (λ ts. targets_at type groups ++ ts) (keep_cons type found.0 (managed_targets plans)))
]

-- The exporters of the nodes are grouped by their accelerator: the group of a type holds the
-- targets of that type that the plans give, each of them once and in the order of the plans.
pub managed_groups-targets :
    (plans : List DesiredNodePlan) (type : String)
    → targets_at type (managed_groups [] plans) ≡ of_type type (managed_targets plans)
unfolding targets_at
managed_groups-targets plans type = managed_groups-from plans [] type
