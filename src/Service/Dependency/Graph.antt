-- ===== src/Service/Dependency/Graph.antt =====
-- The dependency graph: what it means that one task waits for another, and that nothing waits for
-- itself.
use copilot_factory.Prelude.{
  ℕ, Bool, true, ◌&&◌, ◌==◌, ==_iff, List, [], ◌∷◌, any, filterb, push, ◌≡◌, ◌⊎◌, inl, inr, arith,
}
use copilot_factory.Service.Dependency.{DependencyEdge}

-- `linked edges a b`: some row says that `a` depends on `b`.
abbrev pub linked : List DependencyEdge → ℕ → ℕ → Bool
linked edges a b = any (λ e. e.task_id == a && e.depends_on_task_id == b) edges

-- `a` is `b`, or waits for `b` through some rows.
pub data Waits (edges : List DependencyEdge) : ℕ → ℕ → Type 0 where
  here : {a : ℕ} → Waits edges a a
  step : {a b c : ℕ} → linked edges a b ≡ true → Waits edges b c → Waits edges a c

pub Waits-trans :
    (edges : List DependencyEdge) {a b c : ℕ} → Waits edges a b → Waits edges b c → Waits edges a c
Waits-trans edges here w = w
Waits-trans edges (step l v) w = step l (Waits-trans edges v w)

-- No task waits for itself through one row or more.
abbrev pub IsAcyclic : List DependencyEdge → Type 0
IsAcyclic edges = (a b : ℕ) → linked edges a b ≡ true → ¬ Waits edges b a

linked-push :
    (edges : List DependencyEdge) (e : DependencyEdge) (a b : ℕ)
    → linked (push edges e) a b ≡ true
    → (linked edges a b ≡ true) ⊎ ((a ≡ e.task_id) × (b ≡ e.depends_on_task_id))
linked-push [] e a b h = inr (ground (arith, ==_iff e.task_id a, ==_iff e.depends_on_task_id b))
linked-push (x ∷ xs) e a b h = ground (arith, linked-push xs e a b)

Waits-push :
    (edges : List DependencyEdge) (e : DependencyEdge) {a b : ℕ}
    → Waits (push edges e) a b
    → Waits edges a b ⊎ (Waits edges a e.task_id × Waits edges e.depends_on_task_id b)
Waits-push edges e here = inl here
Waits-push edges e (step {a = a} {b = b} l w) = elim (linked-push edges e a b l) [
  | inl old ↦ elim (Waits-push edges e w) [
    | inl r ↦ inl (step old r)
    | inr (r, r') ↦ inr (step old r, r')
  ]
  | inr (p, q) ↦ elim (Waits-push edges e w) [
    | inl r ↦ inr (rw p here, rw q at r)
    | inr (r, r') ↦ inr (rw p here, r')
  ]
]

-- A row whose target does not wait for its source closes no cycle.
pub IsAcyclic-push :
    (edges : List DependencyEdge) (e : DependencyEdge)
    → IsAcyclic edges
    → ¬ Waits edges e.depends_on_task_id e.task_id
    → IsAcyclic (push edges e)
IsAcyclic-push edges e h free a b l w = elim (linked-push edges e a b l) [
  | inl old ↦ elim (Waits-push edges e w) [
    | inl r ↦ h a b old r
    | inr (r, r') ↦ free (Waits-trans edges r' (step old r))
  ]
  | inr (p, q) ↦ elim (Waits-push edges e w) [
    | inl r ↦ free (rw p at (rw q at r))
    | inr (r, r') ↦ free (rw p at r')
  ]
]

linked-filterb :
    (p : DependencyEdge → Bool) (edges : List DependencyEdge) (a b : ℕ)
    → linked (filterb p edges) a b ≡ true
    → linked edges a b ≡ true
linked-filterb p [] a b h = h
linked-filterb p (x ∷ xs) a b h = ground (arith, linked-filterb p xs a b)

Waits-filterb :
    (p : DependencyEdge → Bool) (edges : List DependencyEdge) {a b : ℕ}
    → Waits (filterb p edges) a b
    → Waits edges a b
Waits-filterb p edges here = here
Waits-filterb p edges (step l w) = step (linked-filterb p edges _ _ l) (Waits-filterb p edges w)

-- To drop rows closes no cycle.
pub IsAcyclic-filterb :
    (p : DependencyEdge → Bool) (edges : List DependencyEdge)
    → IsAcyclic edges
    → IsAcyclic (filterb p edges)
IsAcyclic-filterb p edges h a b l w = h a b (linked-filterb p edges a b l) (Waits-filterb p edges w)
