-- ===== src/Service/Jobs/Eligible.antt =====
-- What the adapter under `claimJob` of packages/application/src/services/job-queue.service.ts tests.
use copilot_factory.Prelude.{
  ℕ, ◌≤◌, true, Option, none, some, List, [], ◌∷◌, all, same_iff, ◌≡◌, ◌↔◌, inl, inr, refl, ap, ◌∙◌,
  arith, Memᴰ, not-nil, cases_cons,
}
use copilot_factory.Domain.Status.Job.{
  JobType, JobStatus, pending, claimed, running, completed, failed, cancelled, job_type_enum,
  job_status_enum,
}
use copilot_factory.Service.JobTable.{JobRow, find_job, parse_depends_on_job_ids}
use copilot_factory.Service.Jobs.{
  is_due, is_candidate, is_settled, is_dependency_terminal, dependencies_met,
}

pub data IsEnded : JobStatus → Type 0 where
  is_completed : IsEnded completed
  is_failed : IsEnded failed

-- What makes a job claimable at a time: it waits, its delay is over, and every job that it depends on
-- is there and has ended.
pub record Eligible (job_type : JobType) (now : ℕ) (jobs : List JobRow) (row : JobRow)
    : Type 0 where
  pub waits : row.status ≡ pending
  pub has_type : row.job_type ≡ job_type
  pub due : (t : ℕ) → row.run_after ≡ some t → t ≤ now
  pub settled :
      (id : ℕ)
      → Memᴰ id (parse_depends_on_job_ids row.depends_on_job_ids)
      → (d : JobRow) × (find_job id jobs ≡ some d) × IsEnded d.status

pub IsEnded-iff : (s : JobStatus) → (is_dependency_terminal s ≡ true) ↔ IsEnded s
unfolding is_dependency_terminal
IsEnded-iff completed = (λ h. is_completed, λ h. refl)
IsEnded-iff failed = (λ h. is_failed, λ h. refl)
IsEnded-iff pending = (λ h. absurd (ground arith), λ h. elim h [ ])
IsEnded-iff claimed = (λ h. absurd (ground arith), λ h. elim h [ ])
IsEnded-iff running = (λ h. absurd (ground arith), λ h. elim h [ ])
IsEnded-iff cancelled = (λ h. absurd (ground arith), λ h. elim h [ ])

is_settled_iff :
    (found : Option JobRow)
    → (is_settled found ≡ true) ↔ ((d : JobRow) × (found ≡ some d) × IsEnded d.status)
is_settled_iff none = (λ h. absurd (cc), λ (d, e, h). absurd (cc))
is_settled_iff (some d) = (
  λ h. (d, refl, (IsEnded-iff d.status).0 h),
  λ (d', e, h). ap is_settled e ∙ (IsEnded-iff d'.status).1 h,
)

all_settled_iff :
    (jobs : List JobRow) (ids : List ℕ)
    → (all (λ id. is_settled (find_job id jobs)) ids ≡ true)
      ↔ ((id : ℕ) → Memᴰ id ids → (d : JobRow) × (find_job id jobs ≡ some d) × IsEnded d.status)
all_settled_iff jobs [] = (λ h id m. absurd (not-nil m), λ h. refl)
all_settled_iff jobs (i ∷ ids) = (
  λ h id m. elim (cases_cons m) [
    | inl e ↦ rw e ((is_settled_iff (find_job i jobs)).0 (ground arith))
    | inr n ↦ (all_settled_iff jobs ids).0 (ground arith) id n
  ],
  λ h.
      let first = (is_settled_iff (find_job i jobs)).1 (h i (Memᴰ.head refl)) in
      let others = (all_settled_iff jobs ids).1 (λ id m. h id (Memᴰ.tail m)) in rw first others,
)

is_due_iff : (now : ℕ) (r : Option ℕ) → (is_due now r ≡ true) ↔ ((t : ℕ) → r ≡ some t → t ≤ now)
is_due_iff now none = (λ h t e. absurd (cc), λ h. refl)
is_due_iff now (some r) = (λ h t e. ground arith, λ h. ground (arith, h r refl))

-- The filter of the adapter and its loop test just that.
pub Eligible-iff :
    (job_type : JobType) (now : ℕ) (jobs : List JobRow) (row : JobRow)
    → ((is_candidate job_type now row ≡ true) × (dependencies_met jobs row ≡ true))
      ↔ Eligible job_type now jobs row
unfolding dependencies_met
Eligible-iff job_type now jobs row = (
  λ (c, m). record {
    waits = (same_iff row.status pending).0 (ground arith);
    has_type = (same_iff row.job_type job_type).0 (ground arith);
    due = (is_due_iff now row.run_after).0 (ground arith);
    settled = (all_settled_iff jobs (parse_depends_on_job_ids row.depends_on_job_ids)).0 m;
  },
  λ h. (
    rw
        (
          (same_iff row.status pending).1 h.waits,
          (same_iff row.job_type job_type).1 h.has_type,
          (is_due_iff now row.run_after).1 h.due,
        )
        refl,
    (all_settled_iff jobs (parse_depends_on_job_ids row.depends_on_job_ids)).1 h.settled,
  ),
)
