-- ===== src/Service/Jobs/Life/Calls.antt =====
-- The calls of packages/application/src/services/job-queue.service.ts as steps of the abstract queue.
use copilot_factory.Prelude.{
  ℕ, true, ◌==◌, ==_iff, some, List, [], ◌∷◌, ◌≡◌, ◌≢◌, ◌⊎◌, inl, inr, refl, ap, arith, Bool-cases,
  Option-cases,
}
use copilot_factory.Domain.Status.Job.{
  JobType, JobStatus, pending, claimed, running, completed, failed, job_status_enum,
}
use copilot_factory.Service.JobTable.{JobRow, find_job}
use copilot_factory.Service.JobTable.Rows.{IsKeyed}
use copilot_factory.Service.Jobs.{
  CreateJobData, is_runnable, is_completable, is_failable, create_job, claim_job, start_job,
  complete_job, fail_job,
}
use copilot_factory.Service.Jobs.Eligible.{IsEnded}
use copilot_factory.Service.Jobs.Life.{
  View, view, progress, Moves, claims, starts, completes, completes_early, fails, fails_early, Step,
  stays, appears, moves, Steps, done, step, IsOneAttempt,
}
use copilot_factory.Service.Jobs.Life.Follows.{
  after, after_claim, Follows, create_job-Follows, claim_job-Follows, move_job-Follows, Allows,
  allows_start, allows_early_completion, allows_completion, allows_early_failure, allows_failure,
}

-- One call of the service: identifiers and times are what the generator and the clock give.
pub data JobCall : Type 0 where
  create : ℕ → ℕ → CreateJobData → JobCall
  claim : JobType → ℕ → ℕ → JobCall
  start complete fail : ℕ → ℕ → JobCall

abbrev pub perform : JobCall → List JobRow → List JobRow
perform (create id now data') jobs = after jobs (create_job id now data' jobs)
perform (claim job_type owner now) jobs = after_claim jobs (claim_job job_type owner now jobs)
perform (start now id) jobs = after jobs (start_job now id jobs)
perform (complete now id) jobs = after jobs (complete_job now id jobs)
perform (fail now id) jobs = after jobs (fail_job now id jobs)

abbrev pub perform_all : List JobCall → List JobRow → List JobRow
perform_all [] jobs = jobs
perform_all (c ∷ calls) jobs = perform_all calls (perform c jobs)

runnable-Allows : (s : JobStatus) → is_runnable s ≡ true → Allows s running
unfolding is_runnable
runnable-Allows claimed h = allows_start
runnable-Allows _ h = absurd (ground arith)

completable-Allows : (s : JobStatus) → is_completable s ≡ true → Allows s completed
unfolding is_completable
completable-Allows claimed h = allows_early_completion
completable-Allows running h = allows_completion
completable-Allows _ h = absurd (ground arith)

failable-Allows : (s : JobStatus) → is_failable s ≡ true → Allows s failed
unfolding is_failable
failable-Allows claimed h = allows_early_failure
failable-Allows running h = allows_failure
failable-Allows _ h = absurd (ground arith)

perform-Follows : (c : JobCall) (jobs : List JobRow) → IsKeyed jobs → Follows jobs (perform c jobs)
perform-Follows (create id now data') jobs k = create_job-Follows id now data' jobs k
perform-Follows (claim job_type owner now) jobs k = claim_job-Follows job_type owner now jobs k
perform-Follows (start now id) jobs k =
    move_job-Follows is_runnable running _ _ now id jobs runnable-Allows k
perform-Follows (complete now id) jobs k =
    move_job-Follows is_completable completed _ _ now id jobs completable-Allows k
perform-Follows (fail now id) jobs k =
    move_job-Follows is_failable failed _ _ now id jobs failable-Allows k

-- Whatever jobs are created, claimed, started, completed and failed, in any order and whether the calls
-- return or throw, the table of jobs takes only steps of the abstract queue: a new identifier appears
-- PENDING with no attempt, or one job moves along the life cycle PENDING, CLAIMED, RUNNING and COMPLETED
-- or FAILED, where only the claim counts an attempt; and identifiers stay unique.
pub perform_all-Steps :
    (calls : List JobCall) (jobs : List JobRow)
    → IsKeyed jobs
    → IsKeyed (perform_all calls jobs) × Steps (view jobs) (view (perform_all calls jobs))
perform_all-Steps [] jobs k = (k, done)
perform_all-Steps (c ∷ calls) jobs k =
    let f = perform-Follows c jobs k in
    let (k', s) = perform_all-Steps calls (perform c jobs) f.keyed in (k', step f.abstract s)

Moves-IsOneAttempt :
    (s t : JobStatus) (m n : ℕ)
    → Moves s m t n
    → IsOneAttempt (some (s, m))
    → IsOneAttempt (some (t, n))
Moves-IsOneAttempt s t m n claims h = ground arith
Moves-IsOneAttempt s t m n starts h = ground arith
Moves-IsOneAttempt s t m n completes_early h = ground arith
Moves-IsOneAttempt s t m n completes h = ground arith
Moves-IsOneAttempt s t m n fails_early h = ground arith
Moves-IsOneAttempt s t m n fails h = ground arith

ended_stays : (s t : JobStatus) (m n : ℕ) → Moves s m t n → IsEnded s → ⊥
ended_stays s t m n claims d = elim d [ ]
ended_stays s t m n starts d = elim d [ ]
ended_stays s t m n completes_early d = elim d [ ]
ended_stays s t m n completes d = elim d [ ]
ended_stays s t m n fails_early d = elim d [ ]
ended_stays s t m n fails d = elim d [ ]

Step-IsOneAttempt :
    (v w : View) → Step v w → ((q : ℕ) → IsOneAttempt (v q)) → (q : ℕ) → IsOneAttempt (w q)
Step-IsOneAttempt v w (stays e) h q = rw e (h q)
Step-IsOneAttempt v w (appears id e s) h q =
    rw s (elim (Bool-cases (q == id)) [ inl a ↦ rw a (inl (refl, refl)) | inr a ↦ rw a (h q) ])
Step-IsOneAttempt v w (moves id s t m n e k u) h q = rw u (elim (Bool-cases (q == id)) [
  | inl a ↦ rw a (Moves-IsOneAttempt s t m n k (rw e at (h id)))
  | inr a ↦ rw a (h q)
])

Steps-IsOneAttempt :
    {v w : View} → Steps v w → ((q : ℕ) → IsOneAttempt (v q)) → (q : ℕ) → IsOneAttempt (w q)
Steps-IsOneAttempt done h = h
Steps-IsOneAttempt (step {u} {v} s ss) h = Steps-IsOneAttempt ss (Step-IsOneAttempt u v s h)

-- From an empty table, whatever is called: a job that is PENDING was never attempted, and every other one
-- just once. The service never gives a job a second attempt.
pub perform_all-IsOneAttempt :
    (calls : List JobCall) (id : ℕ) (row : JobRow)
    → find_job id (perform_all calls []) ≡ some row
    → ((row.status ≡ pending) × (row.attempt_count ≡ 0))
      ⊎ ((row.status ≢ pending) × (row.attempt_count ≡ 1))
perform_all-IsOneAttempt calls id row h =
    let (k, s) = perform_all-Steps calls [] tt in rw h at (Steps-IsOneAttempt s (λ q. tt) id)

Step-ended :
    (v w : View) (id : ℕ) (s : JobStatus) (n : ℕ)
    → IsEnded s
    → Step v w
    → v id ≡ some (s, n)
    → w id ≡ some (s, n)
Step-ended v w id s n d (stays e) h = rw e h
Step-ended v w id s n d (appears i e a) h = rw a (elim (Bool-cases (id == i)) [
  | inl b ↦ absurd (let same_id = (==_iff id i).0 b in let h' = rw same_id at h in cc)
  | inr b ↦ rw b h
])
Step-ended v w id s n d (moves i s' t m m' e k u) h = rw u (elim (Bool-cases (id == i)) [
  | inl b ↦ absurd (
      let same_id = (==_iff id i).0 b in
      let h' = rw same_id at h in ended_stays s' t m m' k (let x : s ≡ s' = cc in rw x at d))
  | inr b ↦ rw b h
])

Steps-ended :
    {v w : View} (id : ℕ) (s : JobStatus) (n : ℕ)
    → IsEnded s
    → Steps v w
    → v id ≡ some (s, n)
    → w id ≡ some (s, n)
Steps-ended id s n d done h = h
Steps-ended id s n d (step {u} {v} a ss) h = Steps-ended id s n d ss (Step-ended u v id s n d a h)

-- A job that is COMPLETED or FAILED stays so, and stays in the table, whatever is called next.
pub perform_all-ended :
    (calls : List JobCall) (jobs : List JobRow) (id : ℕ) (row : JobRow)
    → IsKeyed jobs
    → find_job id jobs ≡ some row
    → IsEnded row.status
    → (later : JobRow) × (find_job id (perform_all calls jobs) ≡ some later)
      × (later.status ≡ row.status)
perform_all-ended calls jobs id row k f d =
    let (_, s) = perform_all-Steps calls jobs k in
    let e = Steps-ended id row.status row.attempt_count d s (ap progress f) in
    elim (Option-cases (find_job id (perform_all calls jobs))) [
      | inl n ↦ absurd (let e' = rw n at e in cc)
      | inr (later, g) ↦ let e' = rw g at e in (later, g, cc)
    ]
