-- ===== src/Service/Scheduler/Tick/Process.antt =====
-- The two calls of packages/application/src/services/scheduler-tick.service.ts.
use copilot_factory.Prelude.{
  none, ℕ, ◌+◌, ◌≤◌, ◌<◌, ==_iff, Option, some, List, any, same, same_iff, replace_first, ◌≡◌, inl,
  inr, refl, ap, ◌∙◌, arith, Bool-cases, Option-cases, Memᴰ,
}
use copilot_factory.Domain.Status.Job.{
  pending, scheduler_tick, claimed, completed, job_status_enum, job_type_enum,
}
use copilot_factory.Service.Errors.{Result, ok, throw, ServiceError}
use copilot_factory.Service.JobTable.{JobRow, StoredIds, has_job_id, find_job}
use copilot_factory.Service.JobTable.Rows.{IsKeyed, IsKeyed-push, IsKeyed-replace_first}
use copilot_factory.Service.Jobs.{new_job, create_job, claim_job, set_status}
use copilot_factory.Service.Jobs.Eligible.{Eligible}
use copilot_factory.Service.Jobs.Claim.{claim_job-none_iff}
use copilot_factory.Service.Jobs.Life.{find_job-push, find_job-replace_first}
use copilot_factory.Service.Scheduler.{World}
use copilot_factory.Service.Scheduler.Tick.{
  SchedulerTickConfig, TickAssignmentSummary, TickDraw, ProcessTickResult, skipped, processed,
  is_live, is_non_terminal, tick_data, add_tick, enough, after_loop, finish_tick, process_tick,
}
use copilot_factory.Service.Scheduler.Tick.Counts.{count-push, count-replace_first, find_first-push}
use copilot_factory.Service.Scheduler.Tick.Loop.{Ends, run_scheduling_loop-Ends}
use copilot_factory.Service.Scheduler.Tick.Rows.{
  is_waiting, Ends-Grows, complete_job-claimed, live, waiting, ticks_pass_over, Held,
  claim_job-Held,
}

-- A tick that was added, or could not be.
pub data Added {A : Type 0} (id now : ℕ) (run_after : Option ℕ) (f : ℕ → A) (w w' : World)
    : Result A → Type 0 where
  added :
      IsKeyed w'.jobs
      → live w' ≡ live w + 1
      → find_job id w'.jobs ≡ some (new_job id now (tick_data run_after))
      → ((q : ℕ) (row : JobRow) → find_job q w.jobs ≡ some row → find_job q w'.jobs ≡ some row)
      → w' ≡ record w { jobs = w'.jobs }
      → Added id now run_after f w w' (ok (f id))
  refused : (e : ServiceError) → w' ≡ w → Added id now run_after f w w' (throw e)

pub add_tick-Added :
    {A : Type 0} (id now : ℕ) (run_after : Option ℕ) (f : ℕ → A) (w : World)
    → IsKeyed w.jobs
    → Added id now run_after f w (add_tick id now run_after f w).0 (add_tick id now run_after f w).1
unfolding create_job is_non_terminal
add_tick-Added id now run_after f w k = elim (Bool-cases (any (has_job_id id) w.jobs)) [
  | inl e ↦ rw (add_tick, create_job, e) (refused _ refl)
  | inr e ↦
      let row = new_job id now (tick_data run_after) in
      rw (add_tick, create_job, e)
        (added (IsKeyed-push w.jobs row e k) (count-push (is_live scheduler_tick) w.jobs row)
          (find_job-push id w.jobs row e ∙ rw ((==_iff id id).1 refl) refl)
          (λ q other h. find_first-push (has_job_id q) w.jobs other row h) refl)
]

-- The tick that a call claimed: it might be claimed at that time.
pub record Taken (now : ℕ) (w : World) (id : ℕ) : Type 0 where
  pub row : JobRow
  pub listed : Memᴰ row w.jobs
  pub eligible : Eligible scheduler_tick now w.jobs row
  pub same_id : row.job_id ≡ id

-- How a call of `processTick` ends.
pub data Outcome (config : SchedulerTickConfig) (draw : TickDraw) (w w' : World)
    : Result ProcessTickResult → Type 0 where
  idle :
      w' ≡ w
      → ((row : JobRow) → Memᴰ row w.jobs → ¬ Eligible scheduler_tick draw.claimed_at w.jobs row)
      → Outcome config draw w w' (ok skipped)
  went_on :
      (id : ℕ) (summary : TickAssignmentSummary) (jobs : List JobRow) (v : World) (row : JobRow)
      → Taken draw.claimed_at w id
      → 0 < waiting w
      → Ends draw.draws config.candidate_limit (record w { jobs = jobs }) 0 v (ok summary)
      → w'.db ≡ v.db
      → live w' ≡ live w
      → find_job id w'.jobs ≡ some row
      → row.status ≡ completed
      → find_job draw.next_job_id w'.jobs
        ≡ some (record {
          job_id = draw.next_job_id;
          job_type = scheduler_tick;
          entity_type = none;
          entity_id = none;
          payload_json = none;
          status = pending;
          attempt_count = 0;
          run_after = some (draw.next_from + config.tick_interval);
          lease_owner = none;
          parent_job_id = none;
          job_group_id = none;
          depends_on_job_ids = StoredIds.null;
          created_at = draw.created_at;
          updated_at = draw.created_at;
        })
      → Outcome config draw w w' (ok (processed id summary draw.next_job_id))
  stopped :
      (id : ℕ) (e : ServiceError)
      → Taken draw.claimed_at w id
      → live w' ≤ live w
      → waiting w' + 1 ≡ waiting w
      → Outcome config draw w w' (throw e)

abbrev end_tick : TickDraw → ℕ → World → World
end_tick draw id w = record w {
  jobs = replace_first (has_job_id id) (set_status draw.completed_at completed) w.jobs;
}

-- The third step: the tick is completed, and then the next one is added.
finish_tick-Outcome :
    (config : SchedulerTickConfig) (draw : TickDraw) (summary : TickAssignmentSummary) (w v : World)
    (jobs : List JobRow) (row : JobRow)
    → Taken draw.claimed_at w row.job_id
    → Ends draw.draws config.candidate_limit (record w { jobs = jobs }) 0 v (ok summary)
    → IsKeyed v.jobs
    → find_job row.job_id v.jobs ≡ some row
    → row.status ≡ claimed
    → row.job_type ≡ scheduler_tick
    → live v ≡ live w
    → waiting v + 1 ≡ waiting w
    → IsKeyed (finish_tick config draw row.job_id summary v).0.jobs
      × Outcome config draw w
          (finish_tick config draw row.job_id summary v).0
          (finish_tick config draw row.job_id summary v).1
unfolding finish_tick is_non_terminal
finish_tick-Outcome config draw summary w v jobs row taken ends k f s t l n =
    let ended = set_status draw.completed_at completed in
    let c = complete_job-claimed draw.completed_at row.job_id v.jobs row f s in
    let same_live =
      count-replace_first (is_live scheduler_tick) (has_job_id row.job_id) ended v.jobs row f in
    let same_waiting = count-replace_first is_waiting (has_job_id row.job_id) ended v.jobs row f in
    let t' = (same_iff row.job_type scheduler_tick).1 t in
    let there : find_job row.job_id (end_tick draw row.job_id v).jobs ≡ some (ended row) =
      find_job-replace_first (has_job_id row.job_id) ended row.job_id
        (λ x h. (==_iff x.job_id row.job_id).0 h) (λ x. refl) row.job_id v.jobs row k f
      ∙ rw ((==_iff row.job_id row.job_id).1 refl) refl in
    let k' = IsKeyed-replace_first (has_job_id row.job_id) ended v.jobs (λ x. refl) k in
    let a =
      add_tick-Added draw.next_job_id draw.created_at (some (draw.next_from + config.tick_interval))
        (processed row.job_id summary) (end_tick draw row.job_id v) k' in
    let fewer : live (end_tick draw row.job_id v) + 1 ≡ live v =
      omega (arith, rw (t', s) at same_live) in
    let still : waiting (end_tick draw row.job_id v) ≡ waiting v =
      omega (arith, rw (t', s) at same_waiting) in
    rw (finish_tick, c) (go k' fewer still there _ _ a)
  where
    go :
        IsKeyed (end_tick draw row.job_id v).jobs
        → live (end_tick draw row.job_id v) + 1 ≡ live v
        → waiting (end_tick draw row.job_id v) ≡ waiting v
        → find_job row.job_id (end_tick draw row.job_id v).jobs
          ≡ some (set_status draw.completed_at completed row)
        → (w' : World) (r : Result ProcessTickResult)
        → Added draw.next_job_id draw.created_at
            (some (draw.next_from + config.tick_interval))
            (processed row.job_id summary)
            (end_tick draw row.job_id v)
            w'
            r
        → IsKeyed w'.jobs × Outcome config draw w w' r
    go k' fewer same_waiting there w' _ (added keyed more next kept only) = (
      keyed,
      went_on row.job_id summary jobs v (set_status draw.completed_at completed row) taken
          (omega (arith, n)) ends (ap (λ u. u.db) only) (omega arith)
          (kept row.job_id (set_status draw.completed_at completed row) there) refl next,
    )
    go k' fewer same_waiting there w' _ (refused e same) =
        rw same (k', stopped row.job_id e taken (omega arith) (omega arith))

Held-Taken :
    (now : ℕ) (w : World) (jobs : List JobRow) (job : JobRow)
    → Held now w.jobs jobs job
    → Taken now w job.job_id
Held-Taken now w jobs job h = record {
  row = h.taken;
  listed = h.listed;
  eligible = h.eligible;
  same_id = h.same_id;
}

-- What the loop leaves before the third step.
after_loop-Outcome :
    (config : SchedulerTickConfig) (draw : TickDraw) (w : World) (jobs : List JobRow) (job : JobRow)
    (w' : World) (r : Result TickAssignmentSummary)
    → Held draw.claimed_at w.jobs jobs job
    → Ends draw.draws config.candidate_limit (record w { jobs = jobs }) 0 w' r
    → IsKeyed (after_loop config draw job.job_id (w', r)).0.jobs
      × Outcome config draw w
          (after_loop config draw job.job_id (w', r)).0
          (after_loop config draw job.job_id (w', r)).1
after_loop-Outcome config draw w jobs job w' (ok summary) h ends =
    let l =
      Ends-Grows (is_live scheduler_tick) (λ d t p i j. (ticks_pass_over d t p i j).0) (ok summary)
        ends h.keyed in
    let q =
      Ends-Grows is_waiting (λ d t p i j. (ticks_pass_over d t p i j).1) (ok summary) ends
        h.keyed in
    finish_tick-Outcome config draw summary w w' jobs job (Held-Taken draw.claimed_at w jobs job h)
      ends l.keyed (l.kept job.job_id job h.found) h.is_claimed h.has_type (l.count ∙ h.same_live)
      (ap (λ n. n + 1) q.count ∙ h.one_fewer)
after_loop-Outcome config draw w jobs job w' (throw e) h ends =
    let l =
      Ends-Grows (is_live scheduler_tick) (λ d t p i j. (ticks_pass_over d t p i j).0) (throw e)
        ends h.keyed in
    let q =
      Ends-Grows is_waiting (λ d t p i j. (ticks_pass_over d t p i j).1) (throw e) ends h.keyed in
    let same_live = l.count ∙ h.same_live in
    (
      l.keyed,
      stopped job.job_id e (Held-Taken draw.claimed_at w jobs job h) (omega arith)
          (ap (λ n. n + 1) q.count ∙ h.one_fewer),
    )

-- Every call comes to an end. When no tick may be claimed it changes nothing; else it claims one that may:
-- PENDING, due, and with every job that it depends on ended. Then it either returns, with what the loop
-- counted, that tick COMPLETED, the next one PENDING for the interval after now, and as many ticks alive as
-- before; or it throws, with one tick fewer that waits.
pub process_tick-Outcome :
    (config : SchedulerTickConfig) (draw : TickDraw) (w : World)
    → IsKeyed w.jobs
    → (w' : World) × (r : Result ProcessTickResult) × (process_tick config draw w ≡ some (w', r))
      × IsKeyed w'.jobs
      × Outcome config draw w w' r
unfolding process_tick
process_tick-Outcome config draw w k =
    elim (Option-cases (claim_job scheduler_tick config.lease_owner draw.claimed_at w.jobs)) [
      | inl e ↦ (
        w,
        ok skipped,
        rw (process_tick, e) refl,
        k,
        idle refl
            ((claim_job-none_iff scheduler_tick config.lease_owner draw.claimed_at w.jobs k).0 e),
      )
      | inr ((jobs, job), e) ↦
          let h = claim_job-Held config.lease_owner draw.claimed_at w.jobs jobs job k e in
          let (w', r, l, ends) =
            run_scheduling_loop-Ends draw.draws config.candidate_limit (enough w) 0
              (record w { jobs = jobs }) (omega arith) in
          let (keyed, o) = after_loop-Outcome config draw w jobs job w' r h ends in
          (
            (after_loop config draw job.job_id (w', r)).0,
            (after_loop config draw job.job_id (w', r)).1,
            rw (process_tick, e, l) refl,
            keyed,
            o,
          )
    ]
