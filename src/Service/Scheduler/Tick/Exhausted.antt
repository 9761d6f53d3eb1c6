-- ===== src/Service/Scheduler/Tick/Exhausted.antt =====
-- What the loop of packages/application/src/services/scheduler-tick.service.ts achieves.
use copilot_factory.Prelude.{
  Bool, false, any, ◌==◌, inl, inr, Bool-cases, ==_iff, ℕ, ◌+◌, ◌≤◌, some, List, [], ◌∷◌, push,
  length, ◌≡◌, refl, ap, ◌∙◌, arith,
}
use copilot_factory.Domain.Status.Task.{task_status_enum}
use copilot_factory.Service.Errors.{Result, ok}
use copilot_factory.Service.Tables.{has_lease_id}
use copilot_factory.Service.Tables.Rows.{any-push}
use copilot_factory.Service.JobTable.{has_job_id}
use copilot_factory.Service.Scheduler.{World}
use copilot_factory.Service.Scheduler.Run.{Draw}
use copilot_factory.Service.Scheduler.Outcome.{schedule_next-Failure}
use copilot_factory.Service.Scheduler.Progress.{
  IsFresh, no_Failure, Assignable, schedule_next-assigned_iff,
}
use copilot_factory.Service.Scheduler.Safety.{schedule_next-Dispatched}
use copilot_factory.Service.Scheduler.Tick.{TickAssignmentSummary, run_scheduling_loop, enough}
use copilot_factory.Service.Scheduler.Tick.Loop.{
  count_ready, Calls, no_call, call, Ends, exhausted, failed, assigned-ready,
  run_scheduling_loop-Ends,
}

-- What the loop leaves when it returns: as many READY tasks fewer, and leases more, as it counts, and
-- nothing that another call would assign.
pub record Exhausted (limit : ℕ) (w w' : World) (summary : TickAssignmentSummary) : Type 0 where
  pub ready : count_ready w' + summary.assignment_count ≡ count_ready w
  pub leases : length w'.db.leases ≡ length w.db.leases + summary.assignment_count
  pub none_left : ¬ Assignable limit w'

length-push {ℓ} : {A : Type ℓ} (xs : List A) (x : A) → length (push xs x) ≡ length xs + 1
length-push [] x = refl
length-push (y ∷ ys) x = omega (arith, length-push ys x)

any_pushed {ℓ} :
    {A : Type ℓ} (p : A → Bool) (xs : List A) (x : A)
    → any p xs ≡ false
    → p x ≡ false
    → any p (push xs x) ≡ false
any_pushed p xs x a b = any-push p xs x ∙ rw (a, b) refl

differ : (a b : ℕ) → ¬ (a ≡ b) → (a == b) ≡ false
differ a b d = elim (Bool-cases (a == b)) [ inl e ↦ absurd (d ((==_iff a b).0 e)) | inr e ↦ e ]

-- The generators give every call of `scheduleNext` identifiers of its own.
pub record IsUnique (draws : ℕ → ℕ → Draw) : Type 0 where
  pub leases : (i j k l : ℕ) → (draws i k).lease_id ≡ (draws j l).lease_id → i ≡ j
  pub jobs : (i j k l : ℕ) → (draws i k).job_id ≡ (draws j l).job_id → i ≡ j

module _ (draws : ℕ → ℕ → Draw) (limit : ℕ) where
  Calls-counts :
      {w w' : World} {n m : ℕ}
      → Calls draws limit w n w' m
      → (count_ready w' + m ≡ count_ready w + n)
        × (length w'.db.leases + n ≡ length w.db.leases + m)
  Calls-counts no_call = (refl, refl)
  Calls-counts (call {w} {w1} {n} a g rest) =
      let (r, l) = Calls-counts rest in
      let fewer = assigned-ready draws limit n w w1 a g in
      let d = schedule_next-Dispatched (draws n) limit w w1 a g in
      let more = ap length d.leases ∙ length-push w.db.leases _ in (omega arith, omega arith)

  Calls-IsFresh :
      {w w' : World} {n m : ℕ}
      → IsUnique draws
      → Calls draws limit w n w' m
      → ((k : ℕ) → n ≤ k → IsFresh (draws k) w)
      → (k : ℕ) → m ≤ k
      → IsFresh (draws k) w'
  Calls-IsFresh u no_call fresh = fresh
  Calls-IsFresh u (call {w} {w1} {n} a g rest) fresh =
      let d = schedule_next-Dispatched (draws n) limit w w1 a g in
      Calls-IsFresh u rest (λ k h.
        let f = fresh k (omega arith) in
        record {
          leases = λ q. rw d.leases (
              any_pushed (has_lease_id (draws k q).lease_id) w.db.leases _ (f.leases q) (
                differ (draws n d.position).lease_id (draws k q).lease_id
                  (λ e. let same_call = u.leases n k d.position q e in omega arith)));
          jobs = λ q. rw d.jobs (
              any_pushed (has_job_id (draws k q).job_id) w.jobs _ (f.jobs q) (
                differ (draws n d.position).job_id (draws k q).job_id
                  (λ e. let same_call = u.jobs n k d.position q e in omega arith)));
        })

  -- With fresh identifiers the loop returns: it has taken as many tasks out of READY and given as many
  -- leases as it counts, and no candidate is left that has no active lease and fits a pool with room.
  pub run_scheduling_loop-Exhausted :
      (w : World)
      → IsUnique draws
      → ((k : ℕ) → IsFresh (draws k) w)
      → (w' : World) × (s : TickAssignmentSummary) × (run_scheduling_loop draws limit (enough w) 0 w
          ≡ some (w', ok s))
        × Exhausted limit w w' s
  run_scheduling_loop-Exhausted w u fresh =
      let (w', r, e, ends) = run_scheduling_loop-Ends draws limit (enough w) 0 w (omega arith) in
      go w' r e ends
    where
      go :
          (w' : World) (r : Result TickAssignmentSummary)
          → run_scheduling_loop draws limit (enough w) 0 w ≡ some (w', r)
          → Ends draws limit w 0 w' r
          → (w' : World) × (s : TickAssignmentSummary) × (run_scheduling_loop draws limit
                (enough w)
                0
                w
              ≡ some (w', ok s))
            × Exhausted limit w w' s
      go w' _ e (exhausted {m} reason k calls stop) =
          let (r, l) = Calls-counts calls in
          let f = Calls-IsFresh u calls (λ k h. fresh k) m (omega arith) in
          (
            w',
            record { assignment_count = m; stop_reason = reason },
            e,
            record {
              ready = omega arith;
              leases = omega arith;
              none_left = λ x.
                  let (a, g) = (schedule_next-assigned_iff (draws m) limit w' f).1.1 x in
                  absurd (cc);
            },
          )
      go w' _ e (failed {m} {w1} x calls stop) =
          let f = Calls-IsFresh u calls (λ k h. fresh k) m (omega arith) in
          absurd (
            no_Failure (draws m) limit w1 w' x f
              (schedule_next-Failure (draws m) limit w1 w' x stop))
