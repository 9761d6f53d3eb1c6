-- ===== src/Service/Dependency/Total.antt =====
-- The fuel of the search in packages/application/src/services/dependency.service.ts is enough: each
-- nested call marks one more target of a row.
use mathlib.Core.List.{reverse}
use copilot_factory.Prelude.{
  ℕ, zero, suc, ◌≤◌, ◌<◌, Bool, true, false, not, ◌==◌, ==_iff, Option, none, some, List, [], ◌∷◌,
  any, all, all-weaken, all-filterb, filterb, length, if◌then◌else◌, ◌≡◌, refl, subst, ◌≢◌, arith,
  Bool-cases, inl, inr, Option-cases,
}
use copilot_factory.Service.Dependency.{
  DependencyEdge, SearchState, contains, find_by_task_id, visit_edges, dfs, push_path, pop_path,
  mark, start_state, search_from, detect_cycle,
}
use copilot_factory.Service.Dependency.Search.{
  Search, Subset, Visit, stuck, missed, visit, Failed, dfs-Failed,
}

-- The rows whose target is not yet visited.
abbrev is_fresh : List ℕ → DependencyEdge → Bool
is_fresh xs e = not (contains xs e.depends_on_task_id)

abbrev fresh : List ℕ → List DependencyEdge → ℕ
fresh xs es = length (filterb (is_fresh xs) es)

abbrev is_target : List DependencyEdge → ℕ → Bool
is_target es a = any (λ e. e.depends_on_task_id == a) es

fresh-le : (xs ys : List ℕ) (es : List DependencyEdge) → Subset xs ys → fresh ys es ≤ fresh xs es
fresh-le xs ys [] h = omega arith
fresh-le xs ys (e ∷ es) h = ground (arith, fresh-le xs ys es h, h e.depends_on_task_id)

fresh-mark-le : (xs : List ℕ) (a : ℕ) (es : List DependencyEdge) → fresh (a ∷ xs) es ≤ fresh xs es
fresh-mark-le xs a es = fresh-le xs (a ∷ xs) es (λ v h. ground arith)

fresh-mark-lt :
    (xs : List ℕ) (a : ℕ) (es : List DependencyEdge)
    → is_target es a ≡ true
    → contains xs a ≡ false
    → fresh (a ∷ xs) es < fresh xs es
fresh-mark-lt xs a [] t c = cc
fresh-mark-lt xs a (e ∷ es) t c = elim (Bool-cases (e.depends_on_task_id == a)) [
  | inl h ↦
      let q : e.depends_on_task_id ≡ a = (==_iff e.depends_on_task_id a).0 h in
      ground (arith, fresh-mark-le xs a es, ==_iff a e.depends_on_task_id)
  | inr h ↦ ground (arith, fresh-mark-lt xs a es, fresh-mark-le xs a es)
]

fresh-le-length : (xs : List ℕ) (es : List DependencyEdge) → fresh xs es ≤ length es
fresh-le-length xs [] = omega arith
fresh-le-length xs (e ∷ es) = ground (arith, fresh-le-length xs es)

-- Every row's target is the target of a row.
all_targets : (es : List DependencyEdge) → all (λ e. is_target es e.depends_on_task_id) es ≡ true
all_targets [] = refl
all_targets (e ∷ es) = ground (
  arith,
  ==_iff e.depends_on_task_id e.depends_on_task_id,
  all-weaken (λ x. is_target es x.depends_on_task_id) (λ x. is_target (e ∷ es) x.depends_on_task_id)
      es (λ x h. ground arith) (all_targets es),
)

module _ (target : ℕ) (edges : List DependencyEdge) where
  module _ (f : Search) (n : ℕ)
      (spec : (current : ℕ) (s s' : SearchState)
        → f current s ≡ some (false, s')
        → Failed target edges current s s')
      (total : (current : ℕ) (s : SearchState)
        → is_target edges current ≡ true
        → fresh s.visited edges < n
        → f current s ≢ none) where
    visit_edges-ne-none :
        (es : List DependencyEdge) (s : SearchState)
        → all (λ e. is_target edges e.depends_on_task_id) es ≡ true
        → fresh s.visited edges < n
        → visit_edges f es s ≢ none
    unfolding visit_edges
    visit_edges-ne-none [] s t m h = cc
    visit_edges-ne-none (e ∷ es) s t m h =
        go (visit_edges-ne-none es) (subst (Visit f e es s) h (visit f e es s))
      where
        go :
            ((s' : SearchState)
              → all (λ e. is_target edges e.depends_on_task_id) es ≡ true
              → fresh s'.visited edges < n
              → visit_edges f es s' ≢ none)
            → Visit f e es s none
            → ⊥
        go ih (stuck p) =
            total e.depends_on_task_id (push_path e.depends_on_task_id s) (ground arith) m p
        go ih (missed s' p q) =
            let d = spec e.depends_on_task_id (push_path e.depends_on_task_id s) s' p in
            ih (pop_path s') (ground arith)
              (omega (arith, fresh-le s.visited s'.visited edges d.explores.grows)) q

  dfs-ne-none :
      (fuel current : ℕ) (s : SearchState)
      → is_target edges current ≡ true
      → fresh s.visited edges < fuel
      → dfs fuel target edges current s ≢ none
  unfolding dfs
  dfs-ne-none zero current s t m h = elim m [ ]
  dfs-ne-none (suc fuel) current s t m h = elim (Bool-cases (current == target)) [
    | inl e ↦ ground arith
    | inr e ↦ elim (Bool-cases (contains s.visited current)) [
      | inl c ↦ ground arith
      | inr c ↦
          visit_edges-ne-none (dfs fuel target edges) fuel (dfs-Failed target edges fuel)
            (dfs-ne-none fuel) (find_by_task_id current edges) (mark current s)
            (unfold find_by_task_id in
              all-filterb (λ x. x.task_id == current) (λ x. is_target edges x.depends_on_task_id)
                edges (all_targets edges))
            (omega (arith, fresh-mark-lt s.visited current edges t c)) (ground arith)
    ]
  ]

search_from-ne-none :
    (start target : ℕ) (edges : List DependencyEdge) → search_from start target edges ≢ none
unfolding search_from
search_from-ne-none start target edges =
    visit_edges-ne-none target edges (dfs (suc (length edges)) target edges) (suc (length edges))
      (dfs-Failed target edges (suc (length edges))) (dfs-ne-none target edges (suc (length edges)))
      (find_by_task_id start edges) (start_state start)
      (unfold find_by_task_id in
        all-filterb (λ x. x.task_id == start) (λ x. is_target edges x.depends_on_task_id) edges
          (all_targets edges))
      (omega (arith, fresh-le-length (start ∷ []) edges))

-- The search always ends: with the fuel that the model gives it, `detectCycle` returns a path or
-- `null`.
pub detect_cycle_total :
    (start target : ℕ) (edges : List DependencyEdge)
    → (r : Option (List ℕ)) × (detect_cycle start target edges ≡ some r)
unfolding detect_cycle
detect_cycle_total start target edges = elim (Option-cases (search_from start target edges)) [
  | inl e ↦ absurd (search_from-ne-none start target edges e)
  | inr ((found, s), e) ↦
      (if found then some (reverse s.path_stack) else none, rw (e, detect_cycle))
]
