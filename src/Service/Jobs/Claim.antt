-- ===== src/Service/Jobs/Claim.antt =====
-- Which job `claimJob` of packages/application/src/services/job-queue.service.ts takes.
use copilot_factory.Prelude.{
  ℕ, ◌≤◌, true, false, none, some, List, [], ◌∷◌, same, filterb, replace_first, ◌≡◌, ◌↔◌, inl, inr,
  refl, ap, arith, Bool-cases, Option-cases, Memᴰ, not-nil, cases_cons, IsSorted, sort_by-IsSorted,
  Memᴰ-sort_by, sort_by-Memᴰ, Memᴰ-filterb, filterb-Memᴰ,
}
use copilot_factory.Domain.Status.Job.{JobType, pending, job_type_enum, job_status_enum}
use copilot_factory.Service.JobTable.{JobRow, is_pending_job, claim_row, claim_pending}
use copilot_factory.Service.JobTable.Rows.{IsKeyed, find_pending-Memᴰ}
use copilot_factory.Service.Jobs.{
  is_candidate, is_not_younger, candidates, dependencies_met, claim_first, claim_job,
}
use copilot_factory.Service.Jobs.Eligible.{Eligible, Eligible-iff}

-- The rows that the loop sees.
Waiting : List JobRow → List JobRow → Type 0
Waiting jobs rows =
    (row : JobRow) → Memᴰ row rows → Memᴰ row jobs × (same row.status pending ≡ true)

record FirstMet (owner now : ℕ) (rows jobs jobs' : List JobRow) (job : JobRow) : Type 0 where
  pub row : JobRow
  pub listed : Memᴰ row rows
  pub met : dependencies_met jobs row ≡ true
  pub job_claimed : job ≡ claim_row owner now row
  pub table : jobs' ≡ replace_first (is_pending_job row.job_id) (claim_row owner now) jobs
  pub oldest :
      (other : JobRow)
      → Memᴰ other rows
      → dependencies_met jobs other ≡ true
      → row.created_at ≤ other.created_at

claim_pending-Memᴰ :
    (owner now : ℕ) (jobs : List JobRow) (row : JobRow)
    → IsKeyed jobs
    → Memᴰ row jobs
    → same row.status pending ≡ true
    → claim_pending row.job_id owner now jobs
      ≡ some (
        replace_first (is_pending_job row.job_id) (claim_row owner now) jobs,
        claim_row owner now row,
      )
unfolding claim_pending
claim_pending-Memᴰ owner now jobs row k m e =
    rw (find_pending-Memᴰ jobs row k m e, claim_pending) refl

claim_first-some :
    (owner now : ℕ) (rows jobs jobs' : List JobRow) (job : JobRow)
    → IsKeyed jobs
    → Waiting jobs rows
    → IsSorted is_not_younger rows
    → claim_first owner now rows jobs ≡ some (jobs', job)
    → FirstMet owner now rows jobs jobs' job
unfolding claim_first Waiting
claim_first-some owner now [] jobs jobs' job k w s h = absurd (cc)
claim_first-some owner now (r ∷ rs) jobs jobs' job k w (s, ss) h =
    let (listed, waits) = w r (Memᴰ.head refl) in
    let c = claim_pending-Memᴰ owner now jobs r k listed waits in
    elim (Bool-cases (dependencies_met jobs r)) [
      | inl e ↦
          let h' = rw (e, c, claim_first) at h in
          record {
            row = r;
            listed = Memᴰ.head refl;
            met = e;
            job_claimed = cc;
            table = cc;
            oldest = λ other m met. elim (cases_cons m) [
              | inl same_row ↦ rw same_row (ground arith)
              | inr n ↦ ground (arith, s other n)
            ];
          }
      | inr e ↦
          let f =
            claim_first-some owner now rs jobs jobs' job k (λ row m. w row (Memᴰ.tail m)) ss
              (rw (e, claim_first) at h) in
          record {
            row = f.row;
            listed = Memᴰ.tail f.listed;
            met = f.met;
            job_claimed = f.job_claimed;
            table = f.table;
            oldest = λ other m met. elim (cases_cons m) [
              | inl same_row ↦ absurd (ground (arith, ap (dependencies_met jobs) same_row))
              | inr n ↦ f.oldest other n met
            ];
          }
    ]

claim_first-none :
    (owner now : ℕ) (rows jobs : List JobRow)
    → IsKeyed jobs
    → Waiting jobs rows
    → claim_first owner now rows jobs ≡ none
    → (row : JobRow) → Memᴰ row rows
    → dependencies_met jobs row ≡ false
unfolding claim_first Waiting
claim_first-none owner now [] jobs k w h row m = absurd (not-nil m)
claim_first-none owner now (r ∷ rs) jobs k w h row m =
    let (listed, waits) = w r (Memᴰ.head refl) in
    let c = claim_pending-Memᴰ owner now jobs r k listed waits in
    elim (Bool-cases (dependencies_met jobs r)) [
      | inl e ↦ absurd (let h' = rw (e, c, claim_first) at h in cc)
      | inr e ↦ elim (cases_cons m) [
        | inl same_row ↦ rw same_row e
        | inr n ↦
            claim_first-none owner now rs jobs k (λ row m. w row (Memᴰ.tail m))
              (rw (e, claim_first) at h) row n
      ]
    ]

candidates-Waiting :
    (job_type : JobType) (now : ℕ) (jobs : List JobRow)
    → Waiting jobs (candidates job_type now jobs)
unfolding Waiting
candidates-Waiting job_type now jobs row m =
    let (listed, c) =
      Memᴰ-filterb (is_candidate job_type now) jobs row
        (Memᴰ-sort_by is_not_younger (filterb (is_candidate job_type now) jobs) row m) in
    (listed, ground arith)

candidates_iff :
    (job_type : JobType) (now : ℕ) (jobs : List JobRow) (row : JobRow)
    → Memᴰ row (candidates job_type now jobs)
      ↔ (Memᴰ row jobs × (is_candidate job_type now row ≡ true))
candidates_iff job_type now jobs row = (
  λ m.
      Memᴰ-filterb (is_candidate job_type now) jobs row
        (Memᴰ-sort_by is_not_younger (filterb (is_candidate job_type now) jobs) row m),
  λ (m, c).
      sort_by-Memᴰ is_not_younger (filterb (is_candidate job_type now) jobs) row
        (filterb-Memᴰ (is_candidate job_type now) jobs row m c),
)

-- The claim that a table allows.
pub record Claimed (job_type : JobType) (owner now : ℕ) (jobs jobs' : List JobRow) (job : JobRow)
    : Type 0 where
  pub row : JobRow
  pub listed : Memᴰ row jobs
  pub eligible : Eligible job_type now jobs row
  pub oldest :
      (other : JobRow)
      → Memᴰ other jobs
      → Eligible job_type now jobs other
      → row.created_at ≤ other.created_at
  pub job_claimed : job ≡ claim_row owner now row
  pub table : jobs' ≡ replace_first (is_pending_job row.job_id) (claim_row owner now) jobs

-- The job that `claimJob` returns was PENDING, of the type that was asked for, due, with every job that
-- it depends on there and COMPLETED or FAILED, and no other such job was created before it; its row alone
-- is changed: CLAIMED, by the caller, and one attempt more.
pub claim_job-Claimed :
    (job_type : JobType) (owner now : ℕ) (jobs jobs' : List JobRow) (job : JobRow)
    → IsKeyed jobs
    → claim_job job_type owner now jobs ≡ some (jobs', job)
    → Claimed job_type owner now jobs jobs' job
unfolding claim_job
claim_job-Claimed job_type owner now jobs jobs' job k h =
    let f =
      claim_first-some owner now (candidates job_type now jobs) jobs jobs' job k
        (candidates-Waiting job_type now jobs)
        (sort_by-IsSorted is_not_younger (λ x y e. ground arith) (λ x y z a b. ground arith)
          (filterb (is_candidate job_type now) jobs))
        h in
    let (listed, c) = (candidates_iff job_type now jobs f.row).0 f.listed in
    record {
      row = f.row;
      listed = listed;
      eligible = (Eligible-iff job_type now jobs f.row).0 (c, f.met);
      oldest = λ other m e.
          let (c', met) = (Eligible-iff job_type now jobs other).1 e in
          f.oldest other ((candidates_iff job_type now jobs other).1 (m, c')) met;
      job_claimed = f.job_claimed;
      table = f.table;
    }

-- `claimJob` returns null exactly when no job is claimable.
pub claim_job-none_iff :
    (job_type : JobType) (owner now : ℕ) (jobs : List JobRow)
    → IsKeyed jobs
    → (claim_job job_type owner now jobs ≡ none)
      ↔ ((row : JobRow) → Memᴰ row jobs → ¬ Eligible job_type now jobs row)
unfolding claim_job
claim_job-none_iff job_type owner now jobs k = (
  λ h row m e.
      let (c, met) = (Eligible-iff job_type now jobs row).1 e in
      let unmet =
        claim_first-none owner now (candidates job_type now jobs) jobs k
          (candidates-Waiting job_type now jobs) h row
          ((candidates_iff job_type now jobs row).1 (m, c)) in
      cc,
  λ h. elim (Option-cases (claim_job job_type owner now jobs)) [
    | inl e ↦ e
    | inr ((jobs', job), e) ↦
        let c = claim_job-Claimed job_type owner now jobs jobs' job k e in
        absurd (h c.row c.listed c.eligible)
  ],
)
