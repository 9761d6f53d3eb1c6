-- ===== src/Service/Dependency/Acyclic.antt =====
-- packages/application/src/services/dependency.service.ts keeps the dependency graph acyclic, and
-- refuses a row for no other reason than those that it names.
use copilot_factory.Prelude.{
  true, false, any, inl, inr, Bool-cases, ℕ, not, ◌==◌, ==_iff, Option, none, some, List, [], ◌∷◌,
  push, ◌≡◌, ◌≢◌, ◌↔◌, refl, arith,
}
use copilot_factory.Service.Errors.{Result, ok, throw, EntityType, ServiceError}
use copilot_factory.Service.Dependency.{
  detect_cycle, has_dependency_id, Tables, AddDependencyParams, new_edge, check_new_edge,
  add_dependency, remove_dependency,
}
use copilot_factory.Service.Dependency.Graph.{Waits, IsAcyclic, IsAcyclic-push, IsAcyclic-filterb}
use copilot_factory.Service.Dependency.Total.{detect_cycle_total}
use copilot_factory.Service.Dependency.Reach.{detect_cycle_iff}

check_new_edge-ne :
    (p : AddDependencyParams) (t : Tables)
    → check_new_edge p t ≡ ok tt
    → p.depends_on_task_id ≢ p.task_id
unfolding check_new_edge
check_new_edge-ne p t h = ground (arith, ==_iff p.task_id p.depends_on_task_id)

check_new_edge-ne-cyclic :
    (p : AddDependencyParams) (t : Tables) (a b : ℕ) (path : List ℕ)
    → check_new_edge p t ≢ throw (ServiceError.cyclic_dependency a b path)
unfolding check_new_edge
check_new_edge-ne-cyclic p t a b path h = ground arith

-- The ways of `addDependency`: a check fails, a cycle is found, the row is inserted, or its key is taken.
data Added (id : ℕ) (p : AddDependencyParams) (t : Tables) (r : Option (Result Tables))
    : Type 0 where
  refused : (e : ServiceError) → check_new_edge p t ≡ throw e → r ≡ some (throw e) → Added id p t r
  cyclic :
      (path : List ℕ)
      → check_new_edge p t ≡ ok tt
      → detect_cycle p.depends_on_task_id p.task_id t.edges ≡ some (some path)
      → r ≡ some (throw (ServiceError.cyclic_dependency p.task_id p.depends_on_task_id path))
      → Added id p t r
  inserted :
      check_new_edge p t ≡ ok tt
      → detect_cycle p.depends_on_task_id p.task_id t.edges ≡ some none
      → any (has_dependency_id id) t.edges ≡ false
      → r ≡ some (ok (record t { edges = push t.edges (new_edge id p) }))
      → Added id p t r
  taken :
      check_new_edge p t ≡ ok tt
      → detect_cycle p.depends_on_task_id p.task_id t.edges ≡ some none
      → any (has_dependency_id id) t.edges ≡ true
      → r ≡ some (throw (ServiceError.primary_key_violation EntityType.task_dependency id))
      → Added id p t r

added : (id : ℕ) (p : AddDependencyParams) (t : Tables) → Added id p t (add_dependency id p t)
unfolding add_dependency
added id p t = go (check_new_edge p t) refl
  where
    search :
        check_new_edge p t ≡ ok tt
        → (r : Option (List ℕ)) → detect_cycle p.depends_on_task_id p.task_id t.edges ≡ some r
        → Added id p t (add_dependency id p t)
    search c (some path) h = cyclic path c h (rw (c, h, add_dependency))
    search c none h = elim (Bool-cases (any (has_dependency_id id) t.edges)) [
      | inl e ↦ taken c h e (rw (add_dependency, c, h, e) refl)
      | inr e ↦ inserted c h e (rw (add_dependency, c, h, e) refl)
    ]

    go : (c : Result (Unit {0})) → check_new_edge p t ≡ c → Added id p t (add_dependency id p t)
    go (throw e) h = refused e h (rw (h, add_dependency))
    go (ok tt) h =
        let (r, d) = detect_cycle_total p.depends_on_task_id p.task_id t.edges in search h r d

-- `addDependency` always answers: its search never runs out of fuel.
pub add_dependency_total :
    (id : ℕ) (p : AddDependencyParams) (t : Tables)
    → (r : Result Tables) × (add_dependency id p t ≡ some r)
add_dependency_total id p t = elim (added id p t) [
  | refused e _ h ↦ (throw e, h)
  | cyclic path _ _ h ↦
      (throw (ServiceError.cyclic_dependency p.task_id p.depends_on_task_id path), h)
  | inserted _ _ _ h ↦ (ok (record t { edges = push t.edges (new_edge id p) }), h)
  | taken _ _ _ h ↦ (throw (ServiceError.primary_key_violation EntityType.task_dependency id), h)
]

-- A row that `addDependency` inserts closes no cycle: the graph stays acyclic.
pub add_dependency-IsAcyclic :
    (id : ℕ) (p : AddDependencyParams) (t t' : Tables)
    → IsAcyclic t.edges
    → add_dependency id p t ≡ some (ok t')
    → IsAcyclic t'.edges
add_dependency-IsAcyclic id p t t' h e = elim (added id p t) [
  | refused x _ r ↦ absurd (cc)
  | cyclic path _ _ r ↦ absurd (cc)
  | taken _ _ _ r ↦ absurd (cc)
  | inserted c d _ r ↦
      let q : record t { edges = push t.edges (new_edge id p) } ≡ t' = cc in
      rw (← q) (
        IsAcyclic-push t.edges (new_edge id p) h (λ w.
          let found =
            (detect_cycle_iff p.depends_on_task_id p.task_id t.edges (check_new_edge-ne p t c)).1
              w in
          cc (d, found.1)))
]

-- `addDependency` reports a cycle exactly when its other checks pass and the prerequisite already
-- waits for the task.
pub add_dependency-cyclic_iff :
    (id : ℕ) (p : AddDependencyParams) (t : Tables)
    → ((path : List ℕ) × (add_dependency id p t
          ≡ some (throw (ServiceError.cyclic_dependency p.task_id p.depends_on_task_id path))))
      ↔ ((check_new_edge p t ≡ ok tt) × Waits t.edges p.depends_on_task_id p.task_id)
add_dependency-cyclic_iff id p t = (
  λ (path, e). elim (added id p t) [
    | refused x c r ↦
        let q : x ≡ ServiceError.cyclic_dependency p.task_id p.depends_on_task_id path = cc in
        absurd (check_new_edge-ne-cyclic p t p.task_id p.depends_on_task_id path (rw q at c))
    | cyclic _ c d _ ↦ (
      c,
      (detect_cycle_iff p.depends_on_task_id p.task_id t.edges (check_new_edge-ne p t c)).0 (_, d),
    )
    | inserted c d _ r ↦ absurd (cc)
    | taken c d _ r ↦ absurd (cc)
  ],
  λ (c, w).
      let (path, d) =
        (detect_cycle_iff p.depends_on_task_id p.task_id t.edges (check_new_edge-ne p t c)).1 w in
      (path, unfold add_dependency in rw (c, d, add_dependency)),
)

-- The operations that change the graph, in any order; a call that throws changes nothing.
pub data Operation : Type 0 where
  add : ℕ → AddDependencyParams → Operation
  remove : ℕ → Operation

abbrev pub after_add : Tables → Option (Result Tables) → Tables
after_add t (some (ok t')) = t'
after_add t _ = t

abbrev pub run : List Operation → Tables → Tables
run [] t = t
run (add id p ∷ ops) t = run ops (after_add t (add_dependency id p t))
run (remove id ∷ ops) t = run ops (remove_dependency id t).0

after_add-IsAcyclic :
    (id : ℕ) (p : AddDependencyParams) (t : Tables) (r : Option (Result Tables))
    → add_dependency id p t ≡ r
    → IsAcyclic t.edges
    → IsAcyclic (after_add t r).edges
after_add-IsAcyclic id p t (some (ok t')) e h = add_dependency-IsAcyclic id p t t' h e
after_add-IsAcyclic id p t (some (throw x)) e h = h
after_add-IsAcyclic id p t none e h = h

-- Whatever rows are added and removed, in any order, an acyclic graph stays acyclic.
pub run-IsAcyclic :
    (ops : List Operation) (t : Tables) → IsAcyclic t.edges → IsAcyclic (run ops t).edges
run-IsAcyclic [] t h = h
run-IsAcyclic (add id p ∷ ops) t h =
    run-IsAcyclic ops (after_add t (add_dependency id p t))
      (after_add-IsAcyclic id p t (add_dependency id p t) refl h)
run-IsAcyclic (remove id ∷ ops) t h = run-IsAcyclic ops (remove_dependency id t).0 (
    unfold remove_dependency in IsAcyclic-filterb (λ e. not (e.task_dependency_id == id)) t.edges h)
