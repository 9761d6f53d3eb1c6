-- ===== src/Service/Dependency.antt =====
-- packages/application/src/services/dependency.service.ts over the tables of tasks and dependencies.
pub mod Graph
pub mod Search
pub mod Total
pub mod Found
pub mod Reach
pub mod Acyclic
use copilot_factory.Prelude.{
  ℕ, zero, suc, Bool, true, false, ◌&&◌, ◌||◌, not, ◌==◌, Option, none, some, List, [], ◌∷◌, ◌++◌,
  any, filterb, length, push, if◌then◌else◌,
}
use mathlib.Core.List.{reverse}
use copilot_factory.Service.Errors.{
  Result, ok, throw, ◌>>=◌, ◌>>◌, if_throw, unless_throw, EntityType, ServiceError,
}

pub data DependencyType : Type 0 where
  blocks relates_to parent_child : DependencyType

abbrev pub is_blocks : DependencyType → Bool
is_blocks blocks = true
is_blocks _ = false

-- A row of the table; the column `createdAt` is written by the database and read by no service.
pub record DependencyEdge : Type 0 where
  pub task_dependency_id : ℕ
  pub task_id : ℕ
  pub depends_on_task_id : ℕ
  pub dependency_type : DependencyType
  pub is_hard_block : Bool

-- `SELECT … WHERE task_id = ?`, and the other queries of the repository.
unfoldable pub find_by_task_id : ℕ → List DependencyEdge → List DependencyEdge
find_by_task_id task_id = filterb (λ e. e.task_id == task_id)

unfoldable pub find_by_depends_on_task_id : ℕ → List DependencyEdge → List DependencyEdge
find_by_depends_on_task_id task_id = filterb (λ e. e.depends_on_task_id == task_id)

-- Whether `findByTaskIdPair` returns a row.
unfoldable pub has_task_id_pair : ℕ → ℕ → List DependencyEdge → Bool
has_task_id_pair task_id depends_on =
    any (λ e. e.task_id == task_id && e.depends_on_task_id == depends_on)

-- `Set.has`.
abbrev pub contains : List ℕ → ℕ → Bool
contains xs a = any (λ x. x == a) xs

-- The two variables that the closure `dfs` shares; the top of the stack comes first.
pub record SearchState : Type 0 where
  pub visited : List ℕ
  pub path_stack : List ℕ

abbrev pub push_path : ℕ → SearchState → SearchState
push_path a s = record s { path_stack = a ∷ s.path_stack }

abbrev pub drop_top : List ℕ → List ℕ
drop_top [] = []
drop_top (x ∷ xs) = xs

abbrev pub pop_path : SearchState → SearchState
pop_path s = record s { path_stack = drop_top s.path_stack }

abbrev pub mark : ℕ → SearchState → SearchState
mark a s = record s { visited = a ∷ s.visited }

-- The loop `for (const edge of edges)` around a call of `dfs`; `none` means that its fuel ran out.
unfoldable pub visit_edges :
    (ℕ → SearchState → Option (Bool × SearchState))
    → List DependencyEdge
    → SearchState
    → Option (Bool × SearchState)
visit_edges dfs [] s = some (false, s)
visit_edges dfs (edge ∷ rest) s =
    elim (dfs edge.depends_on_task_id (push_path edge.depends_on_task_id s)) [
      | none ↦ none
      | some (found, s') ↦ elim found [
        | true ↦ some (true, s')
        | false ↦ visit_edges dfs rest (pop_path s')
      ]
    ]

unfoldable pub dfs : ℕ → ℕ → List DependencyEdge → ℕ → SearchState → Option (Bool × SearchState)
dfs zero target edges current s = none
dfs (suc fuel) target edges current s =
    if current == target
    then some (true, push_path target s)
    else if contains s.visited current
    then some (false, s)
    else visit_edges (dfs fuel target edges) (find_by_task_id current edges) (mark current s)

-- The start is marked and lies on the stack.
abbrev pub start_state : ℕ → SearchState
start_state start = record { visited = start ∷ []; path_stack = start ∷ [] }

-- The loop over the rows of the start. Each nested call of `dfs` marks another target of a row, so
-- one more than the number of rows is enough fuel.
unfoldable pub search_from : ℕ → ℕ → List DependencyEdge → Option (Bool × SearchState)
search_from start target edges =
    visit_edges (dfs (suc (length edges)) target edges) (find_by_task_id start edges)
      (start_state start)

-- The result `some path` is a cycle, `none` is `null`; the outer `none` means that the fuel ran out.
unfoldable pub detect_cycle : ℕ → ℕ → List DependencyEdge → Option (Option (List ℕ))
detect_cycle start target edges = elim (search_from start target edges) [
  | none ↦ none
  | some (found, s) ↦ some (if found then some (reverse s.path_stack) else none)
]

pub record Tables : Type 0 where
  pub tasks : List ℕ
  pub edges : List DependencyEdge

pub record AddDependencyParams : Type 0 where
  pub task_id : ℕ
  pub depends_on_task_id : ℕ
  pub dependency_type : DependencyType
  pub is_hard_block : Option Bool

abbrev pub resolved_is_hard_block : AddDependencyParams → Bool
resolved_is_hard_block p = elim p.is_hard_block [ none ↦ is_blocks p.dependency_type | some b ↦ b ]

-- The row that `create` inserts, under the identifier that the generator gave.
abbrev pub new_edge : ℕ → AddDependencyParams → DependencyEdge
new_edge id p = record {
  task_dependency_id = id;
  task_id = p.task_id;
  depends_on_task_id = p.depends_on_task_id;
  dependency_type = p.dependency_type;
  is_hard_block = resolved_is_hard_block p;
}

-- The checks of `addDependency` before the search.
unfoldable pub check_new_edge : AddDependencyParams → Tables → Result (Unit {0})
unfolding has_task_id_pair
check_new_edge p t = do
  if_throw (p.task_id == p.depends_on_task_id) (ServiceError.self_dependency p.task_id)
  unless_throw (contains t.tasks p.task_id)
      (ServiceError.entity_not_found EntityType.task p.task_id)
  unless_throw (contains t.tasks p.depends_on_task_id)
      (ServiceError.entity_not_found EntityType.task p.depends_on_task_id)
  if_throw (has_task_id_pair p.task_id p.depends_on_task_id t.edges)
      (ServiceError.duplicate_dependency p.task_id p.depends_on_task_id)

abbrev pub has_dependency_id : ℕ → DependencyEdge → Bool
has_dependency_id id e = e.task_dependency_id == id

-- `create` of the repository: the primary key has to be free.
abbrev pub insert_edge : DependencyEdge → Tables → Result Tables
insert_edge edge t = do
  if_throw (any (has_dependency_id edge.task_dependency_id) t.edges)
      (ServiceError.primary_key_violation EntityType.task_dependency edge.task_dependency_id)
  ok (record t { edges = push t.edges edge })

-- What `addDependency` does with the result of `detectCycle`.
unfoldable pub insert_unless_cycle :
    ℕ → AddDependencyParams → Tables → Option (Option (List ℕ)) → Option (Result Tables)
insert_unless_cycle id p t none = none
insert_unless_cycle id p t (some (some path)) =
    some (throw (ServiceError.cyclic_dependency p.task_id p.depends_on_task_id path))
insert_unless_cycle id p t (some none) = some (insert_edge (new_edge id p) t)

-- `none` means that the search ran out of fuel; see Dependency/Acyclic.
unfoldable pub add_dependency : ℕ → AddDependencyParams → Tables → Option (Result Tables)
unfolding insert_unless_cycle
add_dependency id p t = elim (check_new_edge p t) [
  | throw e ↦ some (throw e)
  | ok _ ↦ insert_unless_cycle id p t (detect_cycle p.depends_on_task_id p.task_id t.edges)
]

-- The new tables, and whether a row was removed.
unfoldable pub remove_dependency : ℕ → Tables → Tables × Bool
remove_dependency id t = (
  record t { edges = filterb (λ e. not (e.task_dependency_id == id)) t.edges },
  any (λ e. e.task_dependency_id == id) t.edges,
)

unfoldable pub get_dependencies : ℕ → Tables → List DependencyEdge
unfolding find_by_task_id
get_dependencies task_id t = find_by_task_id task_id t.edges

unfoldable pub get_dependents : ℕ → Tables → List DependencyEdge
unfolding find_by_depends_on_task_id
get_dependents task_id t = find_by_depends_on_task_id task_id t.edges
