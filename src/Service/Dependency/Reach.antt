-- ===== src/Service/Dependency/Reach.antt =====
-- The search of packages/application/src/services/dependency.service.ts finds its target exactly when
-- the start waits for it.
use copilot_factory.Prelude.{
  ℕ, suc, Bool, true, false, ◌==◌, ==_iff, Option, none, some, List, [], ◌∷◌, length, ◌≡◌, ◌≢◌, ◌↔◌,
  refl, arith, Bool-cases, inl, inr,
}
use copilot_factory.Service.Dependency.{
  DependencyEdge, SearchState, contains, find_by_task_id, dfs, start_state, search_from,
  detect_cycle,
}
use copilot_factory.Service.Dependency.Graph.{linked, Waits, here, step}
use copilot_factory.Service.Dependency.Search.{
  targets_in, is_closed_at, FailedAll, dfs-Failed, visit_edges_failed,
}
use copilot_factory.Service.Dependency.Total.{detect_cycle_total}
use copilot_factory.Service.Dependency.Found.{Waits-walk, detect_cycle-IsWalk}

linked-targets_in :
    (xs : List ℕ) (a b : ℕ) (es : List DependencyEdge)
    → targets_in xs (find_by_task_id a es) ≡ true
    → linked es a b ≡ true
    → contains xs b ≡ true
unfolding find_by_task_id
linked-targets_in xs a b [] t l = cc
linked-targets_in xs a b (e ∷ es) t l = elim (Bool-cases (e.depends_on_task_id == b)) [
  | inl h ↦
      let q : e.depends_on_task_id ≡ b = (==_iff e.depends_on_task_id b).0 h in
      ground (arith, linked-targets_in xs a b es)
  | inr h ↦ ground (arith, linked-targets_in xs a b es)
]

-- A set that is closed under the rows holds all that its members wait for.
closed_under :
    (target : ℕ) (edges : List DependencyEdge) (xs : List ℕ)
    → ((v : ℕ) → contains xs v ≡ true → is_closed_at target edges xs v ≡ true)
    → {a b : ℕ} → Waits edges a b
    → contains xs a ≡ true
    → contains xs b ≡ true
closed_under target edges xs h here c = c
closed_under target edges xs h (step {a = a} {b = b} l w) c =
    closed_under target edges xs h w (linked-targets_in xs a b edges (h a c) l)

search_from_failed :
    (start target : ℕ) (edges : List DependencyEdge) (s : SearchState)
    → (start == target) ≡ false
    → search_from start target edges ≡ some (false, s)
    → ¬ Waits edges start target
unfolding search_from
search_from_failed start target edges s ne h w =
    let r =
      visit_edges_failed target edges (dfs (suc (length edges)) target edges)
        (dfs-Failed target edges (suc (length edges))) (find_by_task_id start edges)
        (start_state start) s h in
    let reached : contains s.visited target ≡ true =
      closed_under target edges s.visited (closed r) w
        (r.explores.grows start (ground (arith, ==_iff start start))) in
    let missed : contains s.visited target ≡ false = r.explores.avoids (ground arith) in cc
  where
    closed :
        FailedAll target edges (find_by_task_id start edges) (start_state start) s
        → (v : ℕ) → contains s.visited v ≡ true
        → is_closed_at target edges s.visited v ≡ true
    closed r v c = elim (Bool-cases (start == v)) [
      | inl e ↦ rw (← (==_iff start v).0 e) r.reaches
      | inr e ↦ r.explores.closes v c (ground arith)
    ]

-- `detectCycle` returns a path exactly when the start waits for the target.
pub detect_cycle_iff :
    (start target : ℕ) (edges : List DependencyEdge)
    → start ≢ target
    → ((path : List ℕ) × (detect_cycle start target edges ≡ some (some path)))
      ↔ Waits edges start target
unfolding detect_cycle
detect_cycle_iff start target edges ne = (
  λ p.
      let (rest, walk, e) = detect_cycle-IsWalk start target edges p.0 p.1 in
      Waits-walk edges start target rest walk,
  λ w. go w (detect_cycle_total start target edges).0 (detect_cycle_total start target edges).1,
)
  where
    differ : (start == target) ≡ false
    differ = ground arith

    missed :
        (s : SearchState)
        → search_from start target edges ≡ some (false, s)
        → ¬ Waits edges start target
    missed s = search_from_failed start target edges s differ

    null_of :
        detect_cycle start target edges ≡ some none
        → (s : SearchState) × (search_from start target edges ≡ some (false, s))
    null_of h = split (search_from start target edges) refl
      where
        split :
            (r : Option (Bool × SearchState))
            → search_from start target edges ≡ r
            → (s : SearchState) × (search_from start target edges ≡ some (false, s))
        split none e = absurd (ground arith)
        split (some (true, s)) e = absurd (ground arith)
        split (some (false, s)) e = (s, e)

    go :
        Waits edges start target
        → (r : Option (List ℕ)) → detect_cycle start target edges ≡ some r
        → (path : List ℕ) × (detect_cycle start target edges ≡ some (some path))
    go w none h = absurd (missed (null_of h).0 (null_of h).1 w)
    go w (some path) h = (path, h)
