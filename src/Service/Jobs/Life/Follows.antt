-- ===== src/Service/Jobs/Life/Follows.antt =====
-- What each call of packages/application/src/services/job-queue.service.ts leaves in the table of jobs, as
-- a step of the abstract queue.
use copilot_factory.Prelude.{
  ℕ, ◌+◌, Bool, true, false, ==_iff, String, Option, none, some, List, [], ◌∷◌, any, same, same_iff,
  find_first, replace_first, ◌≡◌, inl, inr, refl, ap, ◌∙◌, arith, Bool-cases, Option-cases,
  find_first-any, find_first-Memᴰ,
}
use copilot_factory.Domain.Status.Job.{
  JobType, JobStatus, pending, claimed, running, completed, failed, job_status_enum,
}
use copilot_factory.Service.Errors.{
  Result, ok, throw, or_throw, EntityType, ServiceError, >>=-ok, or_throw-ok, unless_throw-ok,
}
use copilot_factory.Service.JobTable.{
  JobRow, has_job_id, find_job, is_pending_job, claim_row, claim_pending,
}
use copilot_factory.Service.JobTable.Rows.{
  IsKeyed, IsKeyed-push, IsKeyed-replace_first, find_job-Memᴰ,
}
use copilot_factory.Service.Tables.Rows.{find_first-some}
use copilot_factory.Service.Jobs.{
  CreateJobData, new_job, create_job, claim_first, candidates, claim_job, set_status, update_status,
  move_job, dependencies_met,
}
use copilot_factory.Service.Jobs.Life.{
  view, progress, Moves, claims, starts, completes, completes_early, fails, fails_early, Step,
  stays, appears, moves, view-push, view-replace_first,
}

abbrev pub after {ℓ} : {R : Type ℓ} → List JobRow → Result (List JobRow × R) → List JobRow
after jobs (ok (jobs', r)) = jobs'
after jobs (throw e) = jobs

abbrev pub after_claim : List JobRow → Option (List JobRow × JobRow) → List JobRow
after_claim jobs none = jobs
after_claim jobs (some (jobs', r)) = jobs'

-- A table that one call may leave.
pub record Follows (jobs jobs' : List JobRow) : Type 0 where
  pub keyed : IsKeyed jobs'
  pub abstract : Step (view jobs) (view jobs')

unchanged-Follows : (jobs : List JobRow) → IsKeyed jobs → Follows jobs jobs
unchanged-Follows jobs k = record { keyed = k; abstract = stays refl }

pub create_job-Follows :
    (id now : ℕ) (data' : CreateJobData) (jobs : List JobRow)
    → IsKeyed jobs
    → Follows jobs (after jobs (create_job id now data' jobs))
unfolding create_job
create_job-Follows id now data' jobs k = elim (Bool-cases (any (has_job_id id) jobs)) [
  | inl e ↦ rw (e, create_job) (unchanged-Follows jobs k)
  | inr e ↦
      rw (e, create_job)
        (record {
          keyed = IsKeyed-push jobs (new_job id now data') e k;
          abstract = appears id (absent e) (view-push jobs (new_job id now data') e);
        })
]
  where
    absent : any (has_job_id id) jobs ≡ false → view jobs id ≡ none
    absent e = elim (Option-cases (find_job id jobs)) [
      | inl n ↦ ap progress n
      | inr (row, f) ↦ absurd (let g = find_first-some (has_job_id id) jobs row f in cc)
    ]

found_pending :
    (id owner now : ℕ) (jobs : List JobRow) (row : JobRow)
    → IsKeyed jobs
    → find_first (is_pending_job id) jobs ≡ some row
    → Follows jobs (replace_first (is_pending_job id) (claim_row owner now) jobs)
found_pending id owner now jobs row k f =
    let t = find_first-any (is_pending_job id) jobs row f in
    let key : row.job_id ≡ id = (==_iff row.job_id id).0 (ground arith) in
    let waits : row.status ≡ pending = (same_iff row.status pending).0 (ground arith) in
    record {
      keyed = IsKeyed-replace_first (is_pending_job id) (claim_row owner now) jobs (λ r. refl) k;
      abstract =
          moves id pending claimed row.attempt_count (row.attempt_count + 1)
            (ap progress (
                rw key at
                  (find_job-Memᴰ jobs row k (find_first-Memᴰ (is_pending_job id) jobs row f)))
              ∙ ap (λ s. some (s, row.attempt_count)) waits)
            claims
            (view-replace_first (is_pending_job id) (claim_row owner now) id
              (λ x h. (==_iff x.job_id id).0 (ground arith)) (λ x. refl) jobs row k f);
    }

claim_pending-Follows :
    (id owner now : ℕ) (jobs jobs' : List JobRow) (job : JobRow)
    → IsKeyed jobs
    → claim_pending id owner now jobs ≡ some (jobs', job)
    → Follows jobs jobs'
unfolding claim_pending
claim_pending-Follows id owner now jobs jobs' job k h =
    elim (Option-cases (find_first (is_pending_job id) jobs)) [
      | inl e ↦ absurd (let h' = rw (e, claim_pending) at h in cc)
      | inr (row, e) ↦
          let h' = rw (e, claim_pending) at h in
          let same_table : jobs' ≡ replace_first (is_pending_job id) (claim_row owner now) jobs =
            cc in
          rw same_table (found_pending id owner now jobs row k e)
    ]

claim_first-Follows :
    (owner now : ℕ) (rows jobs jobs' : List JobRow) (job : JobRow)
    → IsKeyed jobs
    → claim_first owner now rows jobs ≡ some (jobs', job)
    → Follows jobs jobs'
unfolding claim_first
claim_first-Follows owner now [] jobs jobs' job k h = absurd (cc)
claim_first-Follows owner now (r ∷ rs) jobs jobs' job k h =
    elim (Bool-cases (dependencies_met jobs r)) [
      | inl e ↦ elim (Option-cases (claim_pending r.job_id owner now jobs)) [
        | inl n ↦ claim_first-Follows owner now rs jobs jobs' job k (rw (e, n, claim_first) at h)
        | inr (w, n) ↦
            let h' = rw (e, n, claim_first) at h in
            claim_pending-Follows r.job_id owner now jobs jobs' job k (cc)
      ]
      | inr e ↦ claim_first-Follows owner now rs jobs jobs' job k (rw (e, claim_first) at h)
    ]

pub claim_job-Follows :
    (job_type : JobType) (owner now : ℕ) (jobs : List JobRow)
    → IsKeyed jobs
    → Follows jobs (after_claim jobs (claim_job job_type owner now jobs))
claim_job-Follows job_type owner now jobs k = go (claim_job job_type owner now jobs) refl
  where
    go :
        (r : Option (List JobRow × JobRow))
        → claim_job job_type owner now jobs ≡ r
        → Follows jobs (after_claim jobs r)
    go none e = unchanged-Follows jobs k
    go (some (jobs', job)) e =
        claim_first-Follows owner now (candidates job_type now jobs) jobs jobs' job k
          (unfold claim_job in e)

-- Where the three calls that move a job come from.
pub data Allows : JobStatus → JobStatus → Type 0 where
  allows_start : Allows claimed running
  allows_early_completion : Allows claimed completed
  allows_completion : Allows running completed
  allows_early_failure : Allows claimed failed
  allows_failure : Allows running failed

allowed_move : (s t : JobStatus) (n : ℕ) → Allows s t → Moves s n t n
allowed_move s t n allows_start = starts
allowed_move s t n allows_early_completion = completes_early
allowed_move s t n allows_completion = completes
allowed_move s t n allows_early_failure = fails_early
allowed_move s t n allows_failure = fails

update_status-ok :
    (now id : ℕ) (target : JobStatus) (jobs : List JobRow) (row : JobRow) (w : List JobRow × JobRow)
    → find_job id jobs ≡ some row
    → update_status now id row.status target jobs ≡ some w
    → w.0 ≡ replace_first (has_job_id id) (set_status now target) jobs
unfolding update_status
update_status-ok now id target jobs row w f h =
    let s : same row.status row.status ≡ true = (same_iff row.status row.status).1 refl in
    let h' = rw (f, s, update_status) at h in cc

pub move_job-Follows :
    (allowed : JobStatus → Bool) (target : JobStatus) (refused concurrent : String) (now id : ℕ)
    (jobs : List JobRow)
    → ((s : JobStatus) → allowed s ≡ true → Allows s target)
    → IsKeyed jobs
    → Follows jobs (after jobs (move_job allowed target refused concurrent now id jobs))
unfolding move_job
move_job-Follows allowed target refused concurrent now id jobs a k =
    go (move_job allowed target refused concurrent now id jobs) refl
  where
    go :
        (r : Result (List JobRow × JobRow))
        → move_job allowed target refused concurrent now id jobs ≡ r
        → Follows jobs (after jobs r)
    go (throw x) e = unchanged-Follows jobs k
    go (ok w) e =
        let (row, f, e1) =
          >>=-ok (or_throw (find_job id jobs) (ServiceError.entity_not_found EntityType.job id)) _ _
            e in
        let (_, allows, e2) = >>=-ok _ _ _ e1 in
        let found = or_throw-ok _ _ _ f in
        let same_table = update_status-ok now id target jobs row w found (or_throw-ok _ _ _ e2) in
        rw same_table (record {
          keyed = IsKeyed-replace_first (has_job_id id) (set_status now target) jobs (λ r. refl) k;
          abstract =
              moves id row.status target row.attempt_count row.attempt_count (ap progress found)
                (allowed_move row.status target row.attempt_count
                  (a row.status (unless_throw-ok _ _ _ allows)))
                (view-replace_first (has_job_id id) (set_status now target) id
                  (λ x h. (==_iff x.job_id id).0 h) (λ x. refl) jobs row k found);
        })
