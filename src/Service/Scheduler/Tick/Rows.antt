-- ===== src/Service/Scheduler/Tick/Rows.antt =====
-- The table of jobs during a call of packages/application/src/services/scheduler-tick.service.ts.
use copilot_factory.Prelude.{
  Memᴰ, ℕ, ◌+◌, Bool, false, ◌&&◌, ==_iff, some, List, length, filterb, same, same_iff,
  replace_first, ◌≤◌, ◌≡◌, refl, ap, ◌∙◌, arith,
}
use copilot_factory.Domain.Status.Job.{
  scheduler_tick, pending, claimed, completed, job_status_enum, job_type_enum,
}
use copilot_factory.Service.Errors.{Result, ok, throw, ServiceError}
use copilot_factory.Service.JobTable.{JobRow, has_job_id, find_job, is_pending_job, claim_row}
use copilot_factory.Service.JobTable.Rows.{IsKeyed, find_pending-Memᴰ}
use copilot_factory.Service.Jobs.{
  new_job, claim_job, complete_job, set_status, update_status, move_job, is_completable,
}
use copilot_factory.Service.Jobs.Eligible.{Eligible}
use copilot_factory.Service.Jobs.Claim.{claim_job-Claimed}
use copilot_factory.Service.Jobs.Life.{find_job-replace_first}
use copilot_factory.Service.Jobs.Life.Follows.{create_job-Follows, claim_job-Follows}
use copilot_factory.Service.Scheduler.{SchedulableTask, SchedulablePool, World}
use copilot_factory.Service.Scheduler.Run.{
  Draw, ScheduleAssignmentResult, dispatch_data, schedule_next, assigned,
}
use copilot_factory.Service.Scheduler.Assigned.{lease_failed, job_failed}
use copilot_factory.Service.Scheduler.Outcome.{schedule_next-Assignment, schedule_next-Failure}
use copilot_factory.Service.Scheduler.Dispatches.{create_job-ok}
use copilot_factory.Service.Scheduler.Tick.{
  TickAssignmentSummary, is_live, is_non_terminal, count_non_terminal_by_type,
}
use copilot_factory.Service.Scheduler.Tick.Counts.{
  count-push, count-replace_first, find_first-push, count-weaken,
}
use copilot_factory.Service.Scheduler.Tick.Loop.{Calls, no_call, call, Ends, exhausted, failed}

abbrev pub is_waiting : JobRow → Bool
is_waiting row = same row.status pending && same row.job_type scheduler_tick

-- Jobs that were there stay as they are, and those that a test does not pass alone are added.
pub record Grows (p : JobRow → Bool) (jobs jobs' : List JobRow) : Type 0 where
  pub keyed : IsKeyed jobs'
  pub kept : (id : ℕ) (row : JobRow) → find_job id jobs ≡ some row → find_job id jobs' ≡ some row
  pub count : length (filterb p jobs') ≡ length (filterb p jobs)

pub unchanged-Grows : (p : JobRow → Bool) (jobs : List JobRow) → IsKeyed jobs → Grows p jobs jobs
unchanged-Grows p jobs k = record { keyed = k; kept = λ id row h. h; count = refl }

module _ (p : JobRow → Bool)
    (passes_over : (draw : Draw) (task : SchedulableTask) (pool : SchedulablePool) (lease id : ℕ)
      → p (new_job id draw.now (dispatch_data draw task pool lease)) ≡ false) where
  call-Grows :
      (draws : ℕ → Draw) (limit : ℕ) (w w' : World) (a : ScheduleAssignmentResult)
      → schedule_next draws limit w ≡ (w', ok (assigned a))
      → IsKeyed w.jobs
      → Grows p w.jobs w'.jobs
  call-Grows draws limit w w' a h k =
      let x = schedule_next-Assignment draws limit w w' a h in
      let draw = draws x.granted.position in
      let data' = dispatch_data draw a.task a.pool a.lease_result.lease.lease_id in
      let f = create_job-Follows draw.job_id draw.now data' w.jobs k in
      let j =
        ap (λ y. y.0)
          (create_job-ok draw.job_id draw.now data' w.jobs (w'.jobs, a.dispatch_job) x.created) in
      let off = passes_over draw a.task a.pool a.lease_result.lease.lease_id draw.job_id in
      record {
        keyed = (rw x.created at f).keyed;
        kept = λ id row e.
            rw j
              (find_first-push (has_job_id id) w.jobs row (new_job draw.job_id draw.now data') e);
        count =
            rw j
              (omega (arith, rw off at (count-push p w.jobs (new_job draw.job_id draw.now data'))));
      }

  pub Calls-Grows :
      {draws : ℕ → ℕ → Draw} {limit : ℕ} {v v' : World} {i j : ℕ}
      → Calls draws limit v i v' j
      → IsKeyed v.jobs
      → Grows p v.jobs v'.jobs
  Calls-Grows no_call k = unchanged-Grows p _ k
  Calls-Grows {draws} {limit} (call {w} {w1} {n} a g rest) k =
      let first = call-Grows (draws n) limit w w1 a g k in
      let others = Calls-Grows rest first.keyed in
      record {
        keyed = others.keyed;
        kept = λ id row e. others.kept id row (first.kept id row e);
        count = others.count ∙ first.count;
      }

  failed_jobs :
      (draws : ℕ → Draw) (limit : ℕ) (w w' : World) (e : ServiceError)
      → schedule_next draws limit w ≡ (w', throw e)
      → w'.jobs ≡ w.jobs
  failed_jobs draws limit w w' e h = elim (schedule_next-Failure draws limit w w' e h) [
    | lease_failed k task pool m c a x same ↦ ap (λ u. u.jobs) same
    | job_failed g c only ↦ ap (λ u. u.jobs) only
  ]

  -- Whether the loop returns or throws.
  pub Ends-Grows :
      {draws : ℕ → ℕ → Draw} {limit : ℕ} {v v' : World} {i : ℕ} (r : Result TickAssignmentSummary)
      → Ends draws limit v i v' r
      → IsKeyed v.jobs
      → Grows p v.jobs v'.jobs
  Ends-Grows r (exhausted reason k calls stop) keyed = Calls-Grows calls keyed
  Ends-Grows {draws} {limit} {v} {v'} r (failed {m} {w1} e calls stop) keyed =
      rw (failed_jobs (draws m) limit w1 v' e stop) (Calls-Grows calls keyed)

-- A CLAIMED job can be completed.
pub complete_job-claimed :
    (now id : ℕ) (jobs : List JobRow) (row : JobRow)
    → find_job id jobs ≡ some row
    → row.status ≡ claimed
    → complete_job now id jobs
      ≡ ok (
        replace_first (has_job_id id) (set_status now completed) jobs,
        set_status now completed row,
      )
unfolding move_job update_status is_completable
complete_job-claimed now id jobs row f s = rw (move_job, f, update_status, s) refl

abbrev pub live : World → ℕ
live w = count_non_terminal_by_type scheduler_tick w.jobs

abbrev pub waiting : World → ℕ
waiting w = length (filterb is_waiting w.jobs)

pub waiting-live : (w : World) → waiting w ≤ live w
unfolding is_non_terminal
waiting-live w = count-weaken is_waiting (is_live scheduler_tick) w.jobs (λ row h. ground arith)

pub ticks_pass_over :
    (draw : Draw) (task : SchedulableTask) (pool : SchedulablePool) (lease id : ℕ)
    → (is_live scheduler_tick (new_job id draw.now (dispatch_data draw task pool lease)) ≡ false)
      × (is_waiting (new_job id draw.now (dispatch_data draw task pool lease)) ≡ false)
ticks_pass_over draw task pool lease id = (refl, refl)

-- The tick that a call of `claimJob` took: its row is CLAIMED, and one tick fewer waits.
pub record Held (now : ℕ) (jobs jobs' : List JobRow) (job : JobRow) : Type 0 where
  pub taken : JobRow
  pub listed : Memᴰ taken jobs
  pub eligible : Eligible scheduler_tick now jobs taken
  pub same_id : taken.job_id ≡ job.job_id
  pub keyed : IsKeyed jobs'
  pub found : find_job job.job_id jobs' ≡ some job
  pub is_claimed : job.status ≡ claimed
  pub has_type : job.job_type ≡ scheduler_tick
  pub same_live :
      count_non_terminal_by_type scheduler_tick jobs'
      ≡ count_non_terminal_by_type scheduler_tick jobs
  pub one_fewer : length (filterb is_waiting jobs') + 1 ≡ length (filterb is_waiting jobs)

pub claim_job-Held :
    (owner now : ℕ) (jobs jobs' : List JobRow) (job : JobRow)
    → IsKeyed jobs
    → claim_job scheduler_tick owner now jobs ≡ some (jobs', job)
    → Held now jobs jobs' job
unfolding is_non_terminal
claim_job-Held owner now jobs jobs' job k h =
    let c = claim_job-Claimed scheduler_tick owner now jobs jobs' job k h in
    let waits = (same_iff c.row.status pending).1 c.eligible.waits in
    let f = find_pending-Memᴰ jobs c.row k c.listed waits in
    let t = (same_iff c.row.job_type scheduler_tick).1 c.eligible.has_type in
    let g =
      find_job-replace_first (is_pending_job c.row.job_id) (claim_row owner now) c.row.job_id
        (λ x e. (==_iff x.job_id c.row.job_id).0 (ground arith)) (λ x. refl) c.row.job_id jobs c.row
        k f in
    let l =
      count-replace_first (is_live scheduler_tick) (is_pending_job c.row.job_id)
        (claim_row owner now) jobs c.row f in
    let v =
      count-replace_first is_waiting (is_pending_job c.row.job_id) (claim_row owner now) jobs c.row
        f in
    record {
      taken = c.row;
      listed = c.listed;
      eligible = c.eligible;
      same_id = rw c.job_claimed refl;
      keyed = (rw h at (claim_job-Follows scheduler_tick owner now jobs k)).keyed;
      found = rw (c.table, c.job_claimed) (g ∙ rw ((==_iff c.row.job_id c.row.job_id).1 refl) refl);
      is_claimed = rw c.job_claimed refl;
      has_type = rw c.job_claimed c.eligible.has_type;
      same_live = rw c.table (omega (arith, rw (t, c.eligible.waits) at l));
      one_fewer = rw c.table (omega (arith, rw (t, c.eligible.waits) at v));
    }
