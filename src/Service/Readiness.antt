-- ===== src/Service/Readiness.antt =====
-- packages/application/src/services/readiness.service.ts over the tables of tasks and dependencies.
pub mod Waiting
use copilot_factory.Prelude.{
  ℕ, Bool, true, false, ◌&&◌, ◌||◌, not, Option, none, some, List, [], ◌∷◌, filterb, any, same,
  find_first, if◌then◌else◌,
}
use copilot_factory.Domain.Status.Task.{TaskStatus, backlog, done, cancelled, task_status_enum}
use copilot_factory.Service.Errors.{Result, ok, throw, ◌>>=◌, or_throw, EntityType, ServiceError}
use copilot_factory.Service.Tables.{TaskRow, has_task_id}
use copilot_factory.Service.Dependency.{DependencyType, DependencyEdge, is_blocks, find_by_task_id}

pub record BlockingReason : Type 0 where
  pub depends_on_task_id : ℕ
  pub prerequisite_status : TaskStatus
  pub dependency_type : DependencyType
  pub task_dependency_id : ℕ

pub record ChildBlockingReason : Type 0 where
  pub child_task_id : ℕ
  pub child_status : TaskStatus
  pub task_dependency_id : ℕ

pub data ReadinessResult : Type 0 where
  is_ready : ℕ → ReadinessResult
  is_blocked : ℕ → List BlockingReason → ReadinessResult

pub data ParentReadinessResult : Type 0 where
  complete : ℕ → ParentReadinessResult
  incomplete : ℕ → List ChildBlockingReason → ParentReadinessResult

unfoldable pub is_readiness_blocking_edge : DependencyEdge → Bool
is_readiness_blocking_edge edge = is_blocks edge.dependency_type && edge.is_hard_block

unfoldable pub is_parent_child_edge : DependencyEdge → Bool
is_parent_child_edge edge = elim edge.dependency_type [
  | DependencyType.parent_child ↦ true
  | _ ↦ false
]

-- `findById` of a prerequisite or a child.
abbrev pub status_of : ℕ → List TaskRow → Option TaskStatus
status_of id tasks = elim (find_first (has_task_id id) tasks) [
  | none ↦ none
  | some task ↦ some task.status
]

abbrev pub blocking_reason : DependencyEdge → TaskStatus → BlockingReason
blocking_reason edge status = record {
  depends_on_task_id = edge.depends_on_task_id;
  prerequisite_status = status;
  dependency_type = edge.dependency_type;
  task_dependency_id = edge.task_dependency_id;
}

-- The loop over the edges that may block; a prerequisite that is missing counts as BACKLOG.
unfoldable pub blocking_reasons : List TaskRow → List DependencyEdge → List BlockingReason
blocking_reasons tasks [] = []
blocking_reasons tasks (edge ∷ edges) =
    let rest = blocking_reasons tasks edges in
    elim (status_of edge.depends_on_task_id tasks) [
      | none ↦ blocking_reason edge backlog ∷ rest
      | some status ↦ if same status done then rest else blocking_reason edge status ∷ rest
    ]

abbrev pub child_reason : DependencyEdge → TaskStatus → ChildBlockingReason
child_reason edge status = record {
  child_task_id = edge.depends_on_task_id;
  child_status = status;
  task_dependency_id = edge.task_dependency_id;
}

unfoldable pub incomplete_children : List TaskRow → List DependencyEdge → List ChildBlockingReason
incomplete_children tasks [] = []
incomplete_children tasks (edge ∷ edges) =
    let rest = incomplete_children tasks edges in
    elim (status_of edge.depends_on_task_id tasks) [
      | none ↦ child_reason edge backlog ∷ rest
      | some status ↦
          if same status done || same status cancelled
          then rest
          else child_reason edge status ∷ rest
    ]

-- Both early returns give what an empty list of reasons gives.
abbrev pub readiness_of : ℕ → List BlockingReason → ReadinessResult
readiness_of task_id [] = is_ready task_id
readiness_of task_id reasons = is_blocked task_id reasons

abbrev pub parent_readiness_of : ℕ → List ChildBlockingReason → ParentReadinessResult
parent_readiness_of task_id [] = complete task_id
parent_readiness_of task_id reasons = incomplete task_id reasons

unfoldable pub compute_readiness : ℕ → List TaskRow → List DependencyEdge → Result ReadinessResult
unfolding find_by_task_id is_readiness_blocking_edge
compute_readiness task_id tasks edges = do
  task ←
      or_throw (find_first (has_task_id task_id) tasks)
        (ServiceError.entity_not_found EntityType.task task_id)
  let hard_block_edges = filterb is_readiness_blocking_edge (find_by_task_id task_id edges)
  ok (readiness_of task_id (blocking_reasons tasks hard_block_edges))

unfoldable pub check_parent_child_readiness :
    ℕ → List TaskRow → List DependencyEdge → Result ParentReadinessResult
unfolding find_by_task_id is_parent_child_edge
check_parent_child_readiness parent_id tasks edges = do
  parent ←
      or_throw (find_first (has_task_id parent_id) tasks)
        (ServiceError.entity_not_found EntityType.task parent_id)
  let child_edges = filterb is_parent_child_edge (find_by_task_id parent_id edges)
  ok (parent_readiness_of parent_id (incomplete_children tasks child_edges))
