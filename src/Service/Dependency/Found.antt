-- ===== src/Service/Dependency/Found.antt =====
-- The search of packages/application/src/services/dependency.service.ts when it finds the target: its
-- stack is a walk along the rows.
use mathlib.Core.List.{reverse, reverse-cons}
use copilot_factory.Prelude.{
  ℕ, zero, suc, Bool, true, false, ◌==◌, ==_iff, Option, none, some, List, [], ◌∷◌, ◌++◌, all,
  all-weaken, filterb, length, ◌≡◌, refl, subst, ap, ◌∙◌, arith, Bool-cases, inl, inr,
}
use copilot_factory.Service.Dependency.{
  DependencyEdge, SearchState, contains, find_by_task_id, visit_edges, dfs, push_path, pop_path,
  mark, drop_top, start_state, search_from, detect_cycle,
}
use copilot_factory.Service.Dependency.Graph.{linked, Waits, here, step, Waits-trans}
use copilot_factory.Service.Dependency.Search.{
  Search, Visit, found, missed, visit, Failed, dfs-Failed,
}

-- `IsWalk edges start a rest`: the stack `a ∷ rest`, top first, leads along the rows from `start` to
-- `a`.
abbrev pub IsWalk : List DependencyEdge → ℕ → ℕ → List ℕ → Type 0
IsWalk edges start a [] = a ≡ start
IsWalk edges start a (b ∷ rest) = (linked edges b a ≡ true) × IsWalk edges start b rest

pub Waits-walk :
    (edges : List DependencyEdge) (start a : ℕ) (rest : List ℕ)
    → IsWalk edges start a rest
    → Waits edges start a
Waits-walk edges start a [] w = rw w here
Waits-walk edges start a (b ∷ rest) w =
    Waits-trans edges (Waits-walk edges start b rest w.1) (step w.0 here)

-- The rows that a query for `a` returns lead on from `a`.
linked_rows :
    (a : ℕ) (es : List DependencyEdge)
    → all (λ e. linked es a e.depends_on_task_id) (find_by_task_id a es) ≡ true
unfolding find_by_task_id
linked_rows a [] = refl
linked_rows a (e ∷ es) = ground (
  arith,
  ==_iff e.depends_on_task_id e.depends_on_task_id,
  all-weaken (λ x. linked es a x.depends_on_task_id) (λ x. linked (e ∷ es) a x.depends_on_task_id)
      (filterb (λ x. x.task_id == a) es) (λ x h. ground arith) (linked_rows a es),
)

module _ (start target : ℕ) (edges : List DependencyEdge) where
  -- The stack of a search that succeeded: the target, pushed twice, on a walk to it.
  pub record Found (s : SearchState) : Type 0 where
    pub rest : List ℕ
    pub walk : IsWalk edges start target rest
    pub stack : s.path_stack ≡ target ∷ target ∷ rest

  module _ (f : Search)
      (spec : (current : ℕ) (s s' : SearchState)
        → f current s ≡ some (false, s')
        → Failed target edges current s s')
      (hit : (current : ℕ) (rest : List ℕ) (s s' : SearchState)
        → s.path_stack ≡ current ∷ rest
        → IsWalk edges start current rest
        → f current s ≡ some (true, s')
        → Found s') where
    visit_edges-Found :
        (es : List DependencyEdge) (current : ℕ) (rest : List ℕ) (s s' : SearchState)
        → all (λ e. linked edges current e.depends_on_task_id) es ≡ true
        → s.path_stack ≡ current ∷ rest
        → IsWalk edges start current rest
        → visit_edges f es s ≡ some (true, s')
        → Found s'
    unfolding visit_edges
    visit_edges-Found [] current rest s s' l p w h = cc
    visit_edges-Found (e ∷ es) current rest s s' l p w h =
        go (λ t. visit_edges-Found es current rest t s') (subst (Visit f e es s) h (visit f e es s))
      where
        go :
            ((t : SearchState)
              → all (λ x. linked edges current x.depends_on_task_id) es ≡ true
              → t.path_stack ≡ current ∷ rest
              → IsWalk edges start current rest
              → visit_edges f es t ≡ some (true, s')
              → Found s')
            → Visit f e es s (some (true, s'))
            → Found s'
        go ih (found t q) =
            hit e.depends_on_task_id (current ∷ rest) (push_path e.depends_on_task_id s) t
              (ground arith) (ground arith, w) q
        go ih (missed t q r) =
            let d = spec e.depends_on_task_id (push_path e.depends_on_task_id s) t q in
            ih (pop_path t) (ground arith) (ap drop_top d.restores ∙ p) w r

  dfs-Found :
      (fuel current : ℕ) (rest : List ℕ) (s s' : SearchState)
      → s.path_stack ≡ current ∷ rest
      → IsWalk edges start current rest
      → dfs fuel target edges current s ≡ some (true, s')
      → Found s'
  unfolding dfs
  dfs-Found zero current rest s s' p w h = cc
  dfs-Found (suc fuel) current rest s s' p w h = elim (Bool-cases (current == target)) [
    | inl e ↦
        let q : current ≡ target = (==_iff current target).0 e in
        record { rest = rest; walk = rw q at w; stack = ground arith }
    | inr e ↦ elim (Bool-cases (contains s.visited current)) [
      | inl c ↦ absurd (ground arith)
      | inr c ↦
          visit_edges-Found (dfs fuel target edges) (dfs-Failed target edges fuel) (dfs-Found fuel)
            (find_by_task_id current edges) current rest (mark current s) s'
            (linked_rows current edges) p w (ground arith)
    ]
  ]

  search_from-Found : (s : SearchState) → search_from start target edges ≡ some (true, s) → Found s
  unfolding search_from
  search_from-Found s h =
      visit_edges-Found (dfs (suc (length edges)) target edges)
        (dfs-Failed target edges (suc (length edges))) (dfs-Found (suc (length edges)))
        (find_by_task_id start edges) start [] (start_state start) s (linked_rows start edges) refl
        refl h

-- A path that `detectCycle` returns begins in the start, follows the rows to the target, and then
-- names the target once more.
pub detect_cycle-IsWalk :
    (start target : ℕ) (edges : List DependencyEdge) (path : List ℕ)
    → detect_cycle start target edges ≡ some (some path)
    → (rest : List ℕ) × IsWalk edges start target rest
      × (path ≡ reverse (target ∷ rest) ++ target ∷ [])
unfolding detect_cycle
detect_cycle-IsWalk start target edges path h = go (search_from start target edges) refl
  where
    go :
        (r : Option (Bool × SearchState))
        → search_from start target edges ≡ r
        → (rest : List ℕ) × IsWalk edges start target rest
          × (path ≡ reverse (target ∷ rest) ++ target ∷ [])
    go none e = absurd (ground arith)
    go (some (false, s)) e = absurd (ground arith)
    go (some (true, s)) e =
        let w = search_from-Found start target edges s e in
        let p : path ≡ reverse s.path_stack = ground arith in
        (w.rest, w.walk, p ∙ ap reverse w.stack ∙ reverse-cons target (target ∷ w.rest))
