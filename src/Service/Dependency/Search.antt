-- ===== src/Service/Dependency/Search.antt =====
-- The search of packages/application/src/services/dependency.service.ts when it finds nothing: what
-- it has visited is closed under the rows of the table.
use copilot_factory.Prelude.{
  ℕ, zero, suc, Bool, true, false, ◌==◌, ==_iff, Option, none, some, List, [], ◌∷◌, all, ◌≡◌, refl,
  ap, subst, ◌∙◌, inl, inr, arith, Bool-cases,
}
use copilot_factory.Service.Dependency.{
  DependencyEdge, SearchState, contains, find_by_task_id, visit_edges, dfs, push_path, pop_path,
  mark, drop_top,
}

abbrev pub Subset : List ℕ → List ℕ → Type 0
Subset xs ys = (v : ℕ) → contains xs v ≡ true → contains ys v ≡ true

-- Every target of these rows is in the list.
abbrev pub targets_in : List ℕ → List DependencyEdge → Bool
targets_in xs es = all (λ e. contains xs e.depends_on_task_id) es

targets_in_mono :
    (xs ys : List ℕ) (es : List DependencyEdge)
    → Subset xs ys
    → targets_in xs es ≡ true
    → targets_in ys es ≡ true
targets_in_mono xs ys [] h t = refl
targets_in_mono xs ys (e ∷ es) h t =
    ground (arith, h e.depends_on_task_id, targets_in_mono xs ys es h)

-- One `dfs`, as `visit_edges` calls it.
abbrev pub Search : Type 0
Search = ℕ → SearchState → Option (Bool × SearchState)

-- What the loop makes of the result of one call.
abbrev after_edge :
    Option (Bool × SearchState)
    → (SearchState → Option (Bool × SearchState))
    → Option (Bool × SearchState)
after_edge none k = none
after_edge (some (true, s)) k = some (true, s)
after_edge (some (false, s)) k = k s

visit_edges-cons :
    (f : Search) (e : DependencyEdge) (es : List DependencyEdge) (s : SearchState)
    → visit_edges f (e ∷ es) s
      ≡ after_edge
          (f e.depends_on_task_id (push_path e.depends_on_task_id s))
          (λ s'. visit_edges f es (pop_path s'))
unfolding visit_edges
visit_edges-cons f e es s = ground arith

-- What became of a row: its search failed and the loop went on, or its search succeeded.
pub data Visit (f : Search) (e : DependencyEdge) (es : List DependencyEdge) (s : SearchState)
    : Option (Bool × SearchState) → Type 0 where
  stuck : f e.depends_on_task_id (push_path e.depends_on_task_id s) ≡ none → Visit f e es s none
  found :
      (s' : SearchState)
      → f e.depends_on_task_id (push_path e.depends_on_task_id s) ≡ some (true, s')
      → Visit f e es s (some (true, s'))
  missed :
      (s' : SearchState) {r : Option (Bool × SearchState)}
      → f e.depends_on_task_id (push_path e.depends_on_task_id s) ≡ some (false, s')
      → visit_edges f es (pop_path s') ≡ r
      → Visit f e es s r

pub visit :
    (f : Search) (e : DependencyEdge) (es : List DependencyEdge) (s : SearchState)
    → Visit f e es s (visit_edges f (e ∷ es) s)
visit f e es s =
    rw (visit_edges-cons f e es s)
      (go (f e.depends_on_task_id (push_path e.depends_on_task_id s)) refl)
  where
    go :
        (r : Option (Bool × SearchState))
        → f e.depends_on_task_id (push_path e.depends_on_task_id s) ≡ r
        → Visit f e es s (after_edge r (λ s'. visit_edges f es (pop_path s')))
    go none h = stuck h
    go (some (true, s')) h = found s' h
    go (some (false, s')) h = missed s' h refl

module _ (target : ℕ) (edges : List DependencyEdge) where
  -- The targets of the rows of `v` are in the list.
  abbrev pub is_closed_at : List ℕ → ℕ → Bool
  is_closed_at xs v = targets_in xs (find_by_task_id v edges)

  -- From `xs` to `ys` the search has added only tasks whose rows it has followed, and not the target.
  pub record Explores (xs ys : List ℕ) : Type 0 where
    pub grows : Subset xs ys
    pub closes : (v : ℕ) → contains ys v ≡ true → contains xs v ≡ false → is_closed_at ys v ≡ true
    pub avoids : contains xs target ≡ false → contains ys target ≡ false

  Explores-refl : (xs : List ℕ) → Explores xs xs
  Explores-refl xs = record { grows = λ v h. h; closes = λ v h k. cc; avoids = λ h. h }

  Explores-trans : (xs ys zs : List ℕ) → Explores xs ys → Explores ys zs → Explores xs zs
  Explores-trans xs ys zs a b = record {
    grows = λ v h. b.grows v (a.grows v h);
    closes = λ v h k. elim (Bool-cases (contains ys v)) [
      | inl e ↦ targets_in_mono ys zs (find_by_task_id v edges) b.grows (a.closes v e k)
      | inr e ↦ b.closes v h e
    ];
    avoids = λ h. b.avoids (a.avoids h);
  }

  -- A search from `current` that failed.
  pub record Failed (current : ℕ) (s s' : SearchState) : Type 0 where
    pub explores : Explores s.visited s'.visited
    pub reaches : contains s'.visited current ≡ true
    pub restores : s'.path_stack ≡ s.path_stack

  pub record FailedAll (es : List DependencyEdge) (s s' : SearchState) : Type 0 where
    pub explores : Explores s.visited s'.visited
    pub reaches : targets_in s'.visited es ≡ true
    pub restores : s'.path_stack ≡ s.path_stack

  FailedAll-cons :
      (e : DependencyEdge) (es : List DependencyEdge) (s s' s'' : SearchState)
      → Failed e.depends_on_task_id (push_path e.depends_on_task_id s) s'
      → FailedAll es (pop_path s') s''
      → FailedAll (e ∷ es) s s''
  FailedAll-cons e es s s' s'' d r = record {
    explores = Explores-trans s.visited s'.visited s''.visited d.explores r.explores;
    reaches = ground (arith, r.explores.grows e.depends_on_task_id d.reaches, r.reaches);
    restores = r.restores ∙ ap drop_top d.restores;
  }

  module _ (f : Search)
      (spec : (current : ℕ) (s s' : SearchState)
        → f current s ≡ some (false, s')
        → Failed current s s') where
    pub visit_edges_failed :
        (es : List DependencyEdge) (s s' : SearchState)
        → visit_edges f es s ≡ some (false, s')
        → FailedAll es s s'
    unfolding visit_edges
    visit_edges_failed [] s s' h =
        let q : s ≡ s' = cc in
        rw (← q) (record { explores = Explores-refl s.visited; reaches = refl; restores = refl })
    visit_edges_failed (e ∷ es) s s' h =
        go (visit_edges_failed es) (subst (Visit f e es s) h (visit f e es s))
      where
        go :
            ((t t' : SearchState) → visit_edges f es t ≡ some (false, t') → FailedAll es t t')
            → Visit f e es s (some (false, s'))
            → FailedAll (e ∷ es) s s'
        go ih (missed t p q) =
            FailedAll-cons e es s t s' (spec e.depends_on_task_id _ t p) (ih (pop_path t) s' q)

  Failed-mark :
      (current : ℕ) (s s' : SearchState)
      → (current == target) ≡ false
      → FailedAll (find_by_task_id current edges) (mark current s) s'
      → Failed current s s'
  Failed-mark current s s' ne r = record {
    explores = record {
      grows = λ v h. r.explores.grows v (ground arith);
      closes = λ v h k. elim (Bool-cases (current == v)) [
        | inl e ↦ rw (← (==_iff current v).0 e) r.reaches
        | inr e ↦ r.explores.closes v h (ground arith)
      ];
      avoids = λ h. r.explores.avoids (ground arith);
    };
    reaches = r.explores.grows current (ground (arith, ==_iff current current));
    restores = r.restores;
  }

  -- A search that fails has followed every row of every task that it has added.
  pub dfs-Failed :
      (fuel current : ℕ) (s s' : SearchState)
      → dfs fuel target edges current s ≡ some (false, s')
      → Failed current s s'
  unfolding dfs
  dfs-Failed zero current s s' h = cc
  dfs-Failed (suc fuel) current s s' h = elim (Bool-cases (current == target)) [
    | inl e ↦ absurd (ground arith)
    | inr e ↦ elim (Bool-cases (contains s.visited current)) [
      | inl c ↦
          let q : s ≡ s' = ground arith in
          rw (← q) (record { explores = Explores-refl s.visited; reaches = c; restores = refl })
      | inr c ↦ Failed-mark current s s' e (
          visit_edges_failed (dfs fuel target edges) (dfs-Failed fuel) _ (mark current s) s'
            (ground arith))
    ]
  ]
