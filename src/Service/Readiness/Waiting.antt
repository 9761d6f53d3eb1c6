-- ===== src/Service/Readiness/Waiting.antt =====
-- The answers of packages/application/src/services/readiness.service.ts against the rows of the table of
-- dependencies.
use copilot_factory.Prelude.{
  ℕ, Bool, true, false, ◌&&◌, ◌||◌, ◌==◌, not, Option, none, some, List, [], ◌∷◌, filterb, any, all,
  same, find_first, ◌≡◌, ◌⊎◌, inl, inr, refl, sym, ap, ◌∙◌, arith,
}
use copilot_factory.Domain.Status.Task.{TaskStatus, done, cancelled, task_status_enum}
use copilot_factory.Service.Errors.{ok}
use copilot_factory.Service.Tables.{TaskRow, has_task_id}
use copilot_factory.Service.Dependency.{DependencyEdge, is_blocks, find_by_task_id}
use copilot_factory.Service.Readiness.{
  BlockingReason, ChildBlockingReason, is_ready, is_blocked, complete, incomplete,
  is_readiness_blocking_edge, is_parent_child_edge, status_of, blocking_reasons,
  incomplete_children, compute_readiness, check_parent_child_readiness,
}

abbrev pub is_done : Option TaskStatus → Bool
is_done none = false
is_done (some status) = same status done

abbrev pub is_over : Option TaskStatus → Bool
is_over none = false
is_over (some status) = same status done || same status cancelled

-- A row that keeps the task from being READY: a hard block on a task that is not DONE.
abbrev pub holds_back : ℕ → List TaskRow → DependencyEdge → Bool
holds_back task_id tasks edge =
    edge.task_id == task_id
    && is_blocks edge.dependency_type
    && edge.is_hard_block
    && not (is_done (status_of edge.depends_on_task_id tasks))

-- A row that keeps the parent from being DONE: a child that is neither DONE nor CANCELLED.
abbrev pub holds_open : ℕ → List TaskRow → DependencyEdge → Bool
holds_open task_id tasks edge =
    edge.task_id == task_id
    && is_parent_child_edge edge
    && not (is_over (status_of edge.depends_on_task_id tasks))

abbrev is_empty {ℓ} : {A : Type ℓ} → List A → Bool
is_empty [] = true
is_empty (x ∷ xs) = false

reasons_empty :
    (id : ℕ) (tasks : List TaskRow) (edges : List DependencyEdge)
    → is_empty
        (blocking_reasons tasks (filterb is_readiness_blocking_edge (find_by_task_id id edges)))
      ≡ not (any (holds_back id tasks) edges)
unfolding blocking_reasons is_readiness_blocking_edge find_by_task_id
reasons_empty id tasks [] = refl
reasons_empty id tasks (e ∷ es) = ground (arith, reasons_empty id tasks es)

children_empty :
    (id : ℕ) (tasks : List TaskRow) (edges : List DependencyEdge)
    → is_empty (incomplete_children tasks (filterb is_parent_child_edge (find_by_task_id id edges)))
      ≡ not (any (holds_open id tasks) edges)
unfolding incomplete_children find_by_task_id
children_empty id tasks [] = refl
children_empty id tasks (e ∷ es) = ground (arith, children_empty id tasks es)

-- A reason never names a prerequisite that is DONE.
reasons_open :
    (tasks : List TaskRow) (edges : List DependencyEdge)
    → all (λ r. not (same r.prerequisite_status done)) (blocking_reasons tasks edges) ≡ true
unfolding blocking_reasons
reasons_open tasks [] = refl
reasons_open tasks (e ∷ es) = ground (arith, reasons_open tasks es)

-- For a task that is there, `computeReadiness` says READY exactly when no row holds the task back; otherwise it says BLOCKED, with
-- reasons of which none names a prerequisite that is DONE.
pub compute_readiness_cases :
    (id : ℕ) (tasks : List TaskRow) (edges : List DependencyEdge) (task : TaskRow)
    → find_first (has_task_id id) tasks ≡ some task
    → ((any (holds_back id tasks) edges ≡ false)
        × (compute_readiness id tasks edges ≡ ok (is_ready id)))
      ⊎ ((any (holds_back id tasks) edges ≡ true)
          × (reasons : List BlockingReason) × (compute_readiness id tasks edges
              ≡ ok (is_blocked id reasons))
          × (all (λ r. not (same r.prerequisite_status done)) reasons ≡ true))
unfolding compute_readiness find_by_task_id
compute_readiness_cases id tasks edges task found = go (blocking_reasons tasks blocking) refl
  where
    blocking : List DependencyEdge
    blocking = filterb is_readiness_blocking_edge (find_by_task_id id edges)

    go :
        (reasons : List BlockingReason)
        → blocking_reasons tasks blocking ≡ reasons
        → ((any (holds_back id tasks) edges ≡ false)
            × (compute_readiness id tasks edges ≡ ok (is_ready id)))
          ⊎ ((any (holds_back id tasks) edges ≡ true)
              × (rs : List BlockingReason) × (compute_readiness id tasks edges
                  ≡ ok (is_blocked id rs))
              × (all (λ r. not (same r.prerequisite_status done)) rs ≡ true))
    go [] e =
        let k : true ≡ not (any (holds_back id tasks) edges) =
          ap is_empty (sym e) ∙ reasons_empty id tasks edges in
        inl (ground arith, rw (found, e, compute_readiness) refl)
    go (r ∷ rs) e =
        let k : false ≡ not (any (holds_back id tasks) edges) =
          ap is_empty (sym e) ∙ reasons_empty id tasks edges in
        inr (
          ground arith,
          (r ∷ rs),
          rw (found, e, compute_readiness) refl,
          rw e at (reasons_open tasks blocking),
        )

-- For a parent that is there, `checkParentChildReadiness` says COMPLETE exactly when no row holds it
-- open, that is when every child is there and is DONE or CANCELLED, and INCOMPLETE otherwise.
pub check_parent_child_readiness_cases :
    (id : ℕ) (tasks : List TaskRow) (edges : List DependencyEdge) (task : TaskRow)
    → find_first (has_task_id id) tasks ≡ some task
    → ((any (holds_open id tasks) edges ≡ false)
        × (check_parent_child_readiness id tasks edges ≡ ok (complete id)))
      ⊎ ((any (holds_open id tasks) edges ≡ true)
          × (children : List ChildBlockingReason) × (check_parent_child_readiness id tasks edges
              ≡ ok (incomplete id children)))
unfolding check_parent_child_readiness find_by_task_id
check_parent_child_readiness_cases id tasks edges task found =
    go (incomplete_children tasks (filterb is_parent_child_edge (find_by_task_id id edges))) refl
  where
    go :
        (children : List ChildBlockingReason)
        → incomplete_children tasks (filterb is_parent_child_edge (find_by_task_id id edges))
          ≡ children
        → ((any (holds_open id tasks) edges ≡ false)
            × (check_parent_child_readiness id tasks edges ≡ ok (complete id)))
          ⊎ ((any (holds_open id tasks) edges ≡ true)
              × (cs : List ChildBlockingReason) × (check_parent_child_readiness id tasks edges
                  ≡ ok (incomplete id cs)))
    go [] e =
        let k : true ≡ not (any (holds_open id tasks) edges) =
          ap is_empty (sym e) ∙ children_empty id tasks edges in
        inl (ground arith, rw (found, e, check_parent_child_readiness) refl)
    go (c ∷ cs) e =
        let k : false ≡ not (any (holds_open id tasks) edges) =
          ap is_empty (sym e) ∙ children_empty id tasks edges in
        inr (ground arith, (c ∷ cs), rw (found, e, check_parent_child_readiness) refl)
