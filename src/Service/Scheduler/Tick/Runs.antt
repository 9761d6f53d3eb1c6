-- ===== src/Service/Scheduler/Tick/Runs.antt =====
-- packages/application/src/services/scheduler-tick.service.ts over any sequence of its calls.
use copilot_factory.Prelude.{
  ℕ, ◌≤◌, ltb, Option, none, some, List, [], ◌∷◌, ◌≡◌, inl, inr, refl, subst, sym, arith,
  Bool-cases,
}
use copilot_factory.Domain.Status.Job.{job_type_enum, job_status_enum}
use copilot_factory.Service.Errors.{Result, ok, throw, ServiceError}
use copilot_factory.Service.JobTable.Rows.{IsKeyed}
use copilot_factory.Service.Scheduler.{World}
use copilot_factory.Service.Scheduler.Tick.{
  SchedulerTickConfig, InitializeTickResult, TickDraw, ProcessTickResult, created, skipped,
  initialize, process_tick,
}
use copilot_factory.Service.Scheduler.Tick.Rows.{live, waiting, waiting-live}
use copilot_factory.Service.Scheduler.Tick.Process.{
  Added, added, refused, add_tick-Added, Outcome, idle, went_on, stopped, process_tick-Outcome,
}
use copilot_factory.Service.Scheduler.Tick.Safe.{IsSafe, process_tick-IsSafe}

-- While at most one tick is alive: after a call that threw an error, every later call finds no tick to
-- claim, whatever the time, as long as none is added.
pub process_tick-stuck :
    (config : SchedulerTickConfig) (draw : TickDraw) (w w' : World) (e : ServiceError)
    → IsKeyed w.jobs
    → live w ≤ 1
    → process_tick config draw w ≡ some (w', throw e)
    → (later_config : SchedulerTickConfig) (later : TickDraw)
    → process_tick later_config later w' ≡ some (w', ok skipped)
process_tick-stuck config draw w w' e k one h later_config later =
    let (v, r, g, k', o) = process_tick-Outcome config draw w k in
    let same_world : v ≡ w' = cc in
    let same_result : r ≡ throw e = cc in
    let (w2, r2, g2, _, o2) = process_tick-Outcome later_config later w' (rw same_world at k') in
    let (a, b) = go (nothing_waits (rw (same_world, same_result) at o)) w2 r2 o2 in cc
  where
    nothing_waits : Outcome config draw w w' (throw e) → waiting w' ≡ 0
    nothing_waits (stopped id _ taken l n) = omega (arith, waiting-live w)

    go :
        waiting w' ≡ 0
        → (w2 : World) (r2 : Result ProcessTickResult) → Outcome later_config later w' w2 r2
        → (w2 ≡ w') × (r2 ≡ ok skipped)
    go z w2 _ (idle e none_there) = (e, refl)
    go z w2 _ (went_on id summary jobs v row taken waits ends d l f c next) = absurd (omega arith)
    go z w2 _ (stopped id x taken l n) = absurd (omega arith)

-- A call of the service, with what the clock and the generators give.
pub data TickCall : Type 0 where
  initializes : ℕ → ℕ → TickCall
  processes : SchedulerTickConfig → TickDraw → TickCall

abbrev pub left_by : World → Option (World × Result ProcessTickResult) → World
left_by w none = w
left_by w (some (w', r)) = w'

abbrev pub perform : TickCall → World → World
perform (initializes job_id now) w = (initialize job_id now w).0
perform (processes config draw) w = left_by w (process_tick config draw w)

abbrev pub perform_all : List TickCall → World → World
perform_all [] w = w
perform_all (c ∷ calls) w = perform_all calls (perform c w)

-- Identifiers of jobs are unique, at most one tick is alive, no pool holds more active leases than it may,
-- and no task has two.
pub record IsSound (w : World) : Type 0 where
  pub keyed : IsKeyed w.jobs
  pub one : live w ≤ 1
  pub safe : IsSafe w

initialize-IsSound : (job_id now : ℕ) (w : World) → IsSound w → IsSound (initialize job_id now w).0
unfolding initialize
initialize-IsSound job_id now w s = elim (Bool-cases (ltb 0 (live w))) [
  | inl e ↦ rw (initialize, e) s
  | inr e ↦
      let z : live w ≡ 0 = ground arith in
      rw (initialize, e) (go z _ _ (add_tick-Added job_id now none created w s.keyed))
]
  where
    go :
        live w ≡ 0
        → (w' : World) (r : Result InitializeTickResult) → Added job_id now none created w w' r
        → IsSound w'
    go z w' _ (added keyed more next kept only) = record {
      keyed = keyed;
      one = omega arith;
      safe =
          subst IsSafe (sym only)
            (record { keys = s.safe.keys; within = s.safe.within; exclusive = s.safe.exclusive });
    }
    go z w' _ (refused e unchanged) = rw unchanged s

process_tick-IsSound :
    (config : SchedulerTickConfig) (draw : TickDraw) (w : World)
    → IsSound w
    → IsSound (left_by w (process_tick config draw w))
process_tick-IsSound config draw w s =
    let (w', r, e, keyed, o) = process_tick-Outcome config draw w s.keyed in
    rw e (record {
      keyed = keyed;
      one = go w' r o;
      safe = process_tick-IsSafe config draw w w' r e s.safe;
    })
  where
    go : (w' : World) (r : Result ProcessTickResult) → Outcome config draw w w' r → live w' ≤ 1
    go w' _ (idle unchanged none_there) = rw unchanged s.one
    go w' _ (went_on id summary jobs v row taken waits ends d l f c next) = rw l s.one
    go w' _ (stopped id e taken l n) = let one = s.one in omega arith

-- Whatever calls of `initialize` and `processTick` are made, in any order, whether they return or throw:
-- at most one tick is PENDING, CLAIMED or RUNNING, identifiers of jobs stay unique, no pool holds more
-- active leases than its `maxConcurrency`, and no task has two active leases.
pub perform_all-IsSound :
    (calls : List TickCall) (w : World) → IsSound w → IsSound (perform_all calls w)
perform_all-IsSound [] w s = s
perform_all-IsSound (initializes job_id now ∷ calls) w s =
    perform_all-IsSound calls (initialize job_id now w).0 (initialize-IsSound job_id now w s)
perform_all-IsSound (processes config draw ∷ calls) w s =
    perform_all-IsSound calls (left_by w (process_tick config draw w))
      (process_tick-IsSound config draw w s)
