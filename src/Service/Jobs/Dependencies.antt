-- ===== src/Service/Jobs/Dependencies.antt =====
-- `areJobDependenciesMet` of packages/application/src/services/job-queue.service.ts, next to the test that
-- the adapter under `claimJob` makes.
use copilot_factory.Prelude.{
  ℕ, Bool, true, false, not, ◌&&◌, ◌==◌, ==_iff, Option, none, some, List, [], ◌∷◌, any, all,
  filterb, ◌≡◌, inl, inr, refl, ap, arith, Bool-cases, Option-cases, Memᴰ, not-nil, cases_cons,
  find_first-any,
}
use copilot_factory.Domain.Status.Job.{JobStatus}
use copilot_factory.Service.Errors.{Result, ok, ◌>>=◌, or_throw, EntityType, ServiceError}
use copilot_factory.Service.Tables.Rows.{find_first-none, find_first-some}
use copilot_factory.Service.JobTable.{JobRow, has_job_id, find_job, parse_depends_on_job_ids}
use copilot_factory.Service.Jobs.{is_terminal, is_dependency_terminal, is_settled, dependencies_met}

pub record AreJobDependenciesMetResult : Type 0 where
  pub met : Bool
  pub pending_dependency_ids : List ℕ
  pub missing_dependency_ids : List ℕ

-- `findByIds`.
abbrev pub find_by_ids : List JobRow → List ℕ → List JobRow
find_by_ids jobs [] = []
find_by_ids jobs (id ∷ ids) = elim (find_job id jobs) [
  | none ↦ find_by_ids jobs ids
  | some row ↦ row ∷ find_by_ids jobs ids
]

abbrev pub is_unsettled : Option JobRow → Bool
is_unsettled none = false
is_unsettled (some row) = not (is_terminal row.status)

-- The loop that sorts the identifiers into the two lists.
unfoldable pub pending_among : List JobRow → List ℕ → List ℕ
pending_among found = filterb (λ id. any (has_job_id id) found && is_unsettled (find_job id found))

unfoldable pub missing_among : List JobRow → List ℕ → List ℕ
missing_among found = filterb (λ id. not (any (has_job_id id) found))

abbrev pub is_empty {ℓ} : {A : Type ℓ} → List A → Bool
is_empty [] = true
is_empty (x ∷ xs) = false

-- The early return for no dependencies, and the end of the function.
unfoldable pub judge_dependencies : List JobRow → List ℕ → AreJobDependenciesMetResult
judge_dependencies jobs [] = record {
  met = true;
  pending_dependency_ids = [];
  missing_dependency_ids = [];
}
judge_dependencies jobs (id ∷ ids) =
    let found = find_by_ids jobs (id ∷ ids) in
    let pending_ids = pending_among found (id ∷ ids) in
    let missing_ids = missing_among found (id ∷ ids) in
    record {
      met = is_empty pending_ids && is_empty missing_ids;
      pending_dependency_ids = pending_ids;
      missing_dependency_ids = missing_ids;
    }

unfoldable pub are_job_dependencies_met : ℕ → List JobRow → Result AreJobDependenciesMetResult
are_job_dependencies_met id jobs = do
  row ← or_throw (find_job id jobs) (ServiceError.entity_not_found EntityType.job id)
  ok (judge_dependencies jobs (parse_depends_on_job_ids row.depends_on_job_ids))

find_by_ids-none :
    (jobs : List JobRow) (id : ℕ) (ids : List ℕ)
    → find_job id jobs ≡ none
    → find_job id (find_by_ids jobs ids) ≡ none
find_by_ids-none jobs id [] h = refl
find_by_ids-none jobs id (i ∷ ids) h = elim (Option-cases (find_job i jobs)) [
  | inl e ↦ rw (e, find_by_ids) (find_by_ids-none jobs id ids h)
  | inr (row, e) ↦
      let key = (==_iff row.job_id i).0 (find_first-any (has_job_id i) jobs row e) in
      elim (Bool-cases (row.job_id == id)) [
        | inl s ↦
            let same_id : i ≡ id = ground (arith, ==_iff row.job_id id) in
            absurd (let e' = rw same_id at e in cc)
        | inr n ↦ rw (e, find_by_ids, n) (find_by_ids-none jobs id ids h)
      ]
]

find_by_ids-some :
    (jobs : List JobRow) (id : ℕ) (ids : List ℕ) (row : JobRow)
    → find_job id jobs ≡ some row
    → Memᴰ id ids
    → find_job id (find_by_ids jobs ids) ≡ some row
find_by_ids-some jobs id [] row h m = absurd (not-nil m)
find_by_ids-some jobs id (i ∷ ids) row h m = elim (Option-cases (find_job i jobs)) [
  | inl e ↦ elim (cases_cons m) [
    | inl s ↦ absurd (let e' = rw s at h in cc)
    | inr n ↦ rw (e, find_by_ids) (find_by_ids-some jobs id ids row h n)
  ]
  | inr (r, e) ↦
      let key = (==_iff r.job_id i).0 (find_first-any (has_job_id i) jobs r e) in
      elim (Bool-cases (r.job_id == id)) [
        | inl s ↦
            let same_id : i ≡ id = ground (arith, ==_iff r.job_id id) in
            rw (e, find_by_ids, s) (let e' = rw same_id at e in cc)
        | inr n ↦ elim (cases_cons m) [
          | inl s ↦ absurd (ground (arith, ==_iff r.job_id id))
          | inr k ↦ rw (e, find_by_ids, n) (find_by_ids-some jobs id ids row h k)
        ]
      ]
]

-- Among the rows that were read, a dependency is found as it is in the table.
find_among :
    (jobs : List JobRow) (id : ℕ) (ids : List ℕ)
    → Memᴰ id ids
    → find_job id (find_by_ids jobs ids) ≡ find_job id jobs
find_among jobs id ids m = elim (Option-cases (find_job id jobs)) [
  | inl e ↦ rw (e, find_by_ids-none jobs id ids e) refl
  | inr (row, e) ↦ rw (e, find_by_ids-some jobs id ids row e m) refl
]

abbrev pub is_missing : Option JobRow → Bool
is_missing none = true
is_missing (some row) = false

any-is_missing :
    (rows : List JobRow) (id : ℕ) → not (any (has_job_id id) rows) ≡ is_missing (find_job id rows)
any-is_missing rows id = elim (Option-cases (find_job id rows)) [
  | inl e ↦ rw (e, find_first-none (has_job_id id) rows e) refl
  | inr (row, e) ↦ rw (e, find_first-some (has_job_id id) rows row e) refl
]

unsettled_found :
    (found : Option JobRow) → (not (is_missing found) && is_unsettled found) ≡ is_unsettled found
unsettled_found none = refl
unsettled_found (some row) = refl

filterb-congr :
    (p q : ℕ → Bool) (xs : List ℕ) → ((x : ℕ) → Memᴰ x xs → p x ≡ q x) → filterb p xs ≡ filterb q xs
filterb-congr p q [] h = refl
filterb-congr p q (x ∷ xs) h =
    rw (h x (Memᴰ.head refl), filterb-congr p q xs (λ y m. h y (Memᴰ.tail m))) refl

pending_among-find_by_ids :
    (jobs : List JobRow) (ids : List ℕ)
    → pending_among (find_by_ids jobs ids) ids ≡ filterb (λ id. is_unsettled (find_job id jobs)) ids
unfolding pending_among
pending_among-find_by_ids jobs ids =
    filterb-congr
      (λ id.
        any (has_job_id id) (find_by_ids jobs ids)
        && is_unsettled (find_job id (find_by_ids jobs ids)))
      (λ id. is_unsettled (find_job id jobs)) ids
      λ id m.
        let a = any-is_missing (find_by_ids jobs ids) id in
        let u = unsettled_found (find_job id jobs) in
        ground (
          arith,
          find_among jobs id ids m,
          rw (find_among jobs id ids m) at a,
          ap is_unsettled (find_among jobs id ids m),
        )

missing_among-find_by_ids :
    (jobs : List JobRow) (ids : List ℕ)
    → missing_among (find_by_ids jobs ids) ids ≡ filterb (λ id. is_missing (find_job id jobs)) ids
unfolding missing_among
missing_among-find_by_ids jobs ids =
    filterb-congr (λ id. not (any (has_job_id id) (find_by_ids jobs ids)))
      (λ id. is_missing (find_job id jobs)) ids
      λ id m.
        rw (any-is_missing (find_by_ids jobs ids) id) (ap is_missing (find_among jobs id ids m))

terminal_same : (s : JobStatus) → is_terminal s ≡ is_dependency_terminal s
unfolding is_terminal is_dependency_terminal
terminal_same s = refl

settled_iff :
    (found : Option JobRow)
    → (not (is_unsettled found) && not (is_missing found)) ≡ is_settled found
settled_iff none = refl
settled_iff (some row) = ground (arith, terminal_same row.status)

is_empty-filterb :
    (jobs : List JobRow) (ids : List ℕ)
    → (is_empty (filterb (λ id. is_unsettled (find_job id jobs)) ids)
        && is_empty (filterb (λ id. is_missing (find_job id jobs)) ids))
      ≡ all (λ id. is_settled (find_job id jobs)) ids
is_empty-filterb jobs [] = refl
is_empty-filterb jobs (i ∷ ids) =
    ground (arith, settled_iff (find_job i jobs), is_empty-filterb jobs ids)

judge_dependencies_lem :
    (jobs : List JobRow) (ids : List ℕ)
    → judge_dependencies jobs ids ≡ record {
      met = all (λ id. is_settled (find_job id jobs)) ids;
      pending_dependency_ids = filterb (λ id. is_unsettled (find_job id jobs)) ids;
      missing_dependency_ids = filterb (λ id. is_missing (find_job id jobs)) ids;
    }
unfolding judge_dependencies
judge_dependencies_lem jobs [] = refl
judge_dependencies_lem jobs (i ∷ ids) =
    rw
      (
        pending_among-find_by_ids jobs (i ∷ ids),
        missing_among-find_by_ids jobs (i ∷ ids),
        is_empty-filterb jobs (i ∷ ids),
      )
      refl

-- `areJobDependenciesMet` says that a job's dependencies are met exactly when the test under `claimJob`
-- passes the job, and it lists as missing the identifiers under which the table has no job, and as pending
-- those of jobs that are neither COMPLETED nor FAILED.
pub are_job_dependencies_met-dependencies_met :
    (id : ℕ) (jobs : List JobRow) (row : JobRow)
    → find_job id jobs ≡ some row
    → are_job_dependencies_met id jobs
      ≡ ok (record {
        met = dependencies_met jobs row;
        pending_dependency_ids =
            filterb
              (λ d. is_unsettled (find_job d jobs))
              (parse_depends_on_job_ids row.depends_on_job_ids);
        missing_dependency_ids =
            filterb
              (λ d. is_missing (find_job d jobs))
              (parse_depends_on_job_ids row.depends_on_job_ids);
      })
unfolding are_job_dependencies_met dependencies_met
are_job_dependencies_met-dependencies_met id jobs row h =
    rw (h, judge_dependencies_lem jobs (parse_depends_on_job_ids row.depends_on_job_ids)) refl
