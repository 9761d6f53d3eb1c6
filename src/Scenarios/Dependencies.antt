-- ===== src/Scenarios/Dependencies.antt =====
-- Runs of packages/application/src/services/dependency.service.ts.
use copilot_factory.Prelude.{
  false, not, any, all, same, ◌⊎◌, ℕ, true, ◌≡◌, refl, ◌↔◌, arith, Option, none, some, List, [],
  ◌∷◌,
}
use copilot_factory.Domain.Status.Task.{TaskStatus, backlog, in_review, done, task_status_enum}
use copilot_factory.Service.Tables.{TaskRow}
use copilot_factory.Service.Readiness.{BlockingReason, ReadinessResult, compute_readiness}
use copilot_factory.Service.Readiness.Waiting.{holds_back, compute_readiness_cases}
use copilot_factory.Service.Errors.{ok, throw, ServiceError}
use copilot_factory.Service.Dependency.{
  DependencyEdge, DependencyType, Tables, AddDependencyParams, detect_cycle, add_dependency,
  check_new_edge, find_by_task_id, visit_edges, dfs, search_from,
}
use copilot_factory.Service.Dependency.Graph.{Waits, IsAcyclic}
use copilot_factory.Service.Dependency.Total.{detect_cycle_total}
use copilot_factory.Service.Dependency.Reach.{detect_cycle_iff}
use copilot_factory.Service.Dependency.Acyclic.{
  add, remove, run, add_dependency-IsAcyclic, add_dependency-cyclic_iff, run-IsAcyclic,
}

abbrev blocks_on : ℕ → ℕ → AddDependencyParams
blocks_on task prerequisite = record {
  task_id = task;
  depends_on_task_id = prerequisite;
  dependency_type = DependencyType.blocks;
  is_hard_block = none;
}

abbrev no_rows : Tables
no_rows = record { tasks = 1 ∷ 2 ∷ 3 ∷ []; edges = [] }

no_rows-IsAcyclic : IsAcyclic []
no_rows-IsAcyclic a b l w = cc

-- 1 depends on 2 and 2 on 3.
abbrev edge : ℕ → ℕ → ℕ → DependencyEdge
edge id a b = record {
  task_dependency_id = id;
  task_id = a;
  depends_on_task_id = b;
  dependency_type = DependencyType.blocks;
  is_hard_block = true;
}

abbrev one_row : Tables
one_row = record no_rows { edges = edge 10 1 2 ∷ [] }

abbrev chain : Tables
chain = record no_rows { edges = edge 10 1 2 ∷ edge 11 2 3 ∷ [] }

add_first : add_dependency 10 (blocks_on 1 2) no_rows ≡ some (ok one_row)
unfolding add_dependency check_new_edge detect_cycle search_from visit_edges find_by_task_id dfs
add_first = refl

add_second : add_dependency 11 (blocks_on 2 3) one_row ≡ some (ok chain)
unfolding add_dependency check_new_edge detect_cycle search_from visit_edges find_by_task_id dfs
add_second = refl

one_row-IsAcyclic : IsAcyclic one_row.edges
one_row-IsAcyclic =
    add_dependency-IsAcyclic 10 (blocks_on 1 2) no_rows one_row no_rows-IsAcyclic add_first

add_dependency-cyclic_iff_example :
    ((path : List ℕ) × (add_dependency 12 (blocks_on 3 1) chain
        ≡ some (throw (ServiceError.cyclic_dependency 3 1 path))))
    ↔ ((check_new_edge (blocks_on 3 1) chain ≡ ok tt) × Waits chain.edges 1 3)
add_dependency-cyclic_iff_example = add_dependency-cyclic_iff 12 (blocks_on 3 1) chain

detect_cycle_total_example : (r : Option (List ℕ)) × (detect_cycle 1 3 chain.edges ≡ some r)
detect_cycle_total_example = detect_cycle_total 1 3 chain.edges

detect_cycle_iff_example :
    ((path : List ℕ) × (detect_cycle 1 3 chain.edges ≡ some (some path))) ↔ Waits chain.edges 1 3
detect_cycle_iff_example = detect_cycle_iff 1 3 chain.edges (λ e. absurd (omega (arith, e)))

chain_path : detect_cycle 1 3 chain.edges ≡ some (some (1 ∷ 2 ∷ 3 ∷ 3 ∷ []))
unfolding detect_cycle search_from visit_edges find_by_task_id dfs
chain_path = refl

run-IsAcyclic_example :
    IsAcyclic
      (run
        (add 10 (blocks_on 1 2) ∷ add 11 (blocks_on 2 3) ∷ remove 10 ∷ add 12 (blocks_on 3 1) ∷ [])
        no_rows).edges
run-IsAcyclic_example =
    run-IsAcyclic
      (add 10 (blocks_on 1 2) ∷ add 11 (blocks_on 2 3) ∷ remove 10 ∷ add 12 (blocks_on 3 1) ∷ [])
      no_rows no_rows-IsAcyclic

abbrev row_of : ℕ → TaskStatus → TaskRow
row_of id status = record {
  task_id = id;
  status = status;
  version = 1;
  retry_count = 0;
  current_lease_id = none;
}

-- 1 waits for 2, which is not DONE yet.
abbrev rows : List TaskRow
rows = row_of 1 backlog ∷ row_of 2 in_review ∷ row_of 3 done ∷ []

compute_readiness_cases_example :
    ((any (holds_back 1 rows) chain.edges ≡ false)
      × (compute_readiness 1 rows chain.edges ≡ ok (ReadinessResult.is_ready 1)))
    ⊎ ((any (holds_back 1 rows) chain.edges ≡ true)
        × (reasons : List BlockingReason) × (compute_readiness 1 rows chain.edges
            ≡ ok (ReadinessResult.is_blocked 1 reasons))
        × (all (λ r. not (same r.prerequisite_status done)) reasons ≡ true))
compute_readiness_cases_example = compute_readiness_cases 1 rows chain.edges (row_of 1 backlog) refl

abbrev child : DependencyEdge
child = record (edge 12 1 3) { dependency_type = DependencyType.parent_child }
