-- ===== src/Service/Exclusivity/Retries.antt =====
-- The retry counts of tasks over any sequence of calls of the three lease services of
-- packages/application/src/services.
use copilot_factory.Prelude.{
  ℕ, Bool, true, false, leb, List, [], ◌∷◌, all, ◌≡◌, inl, inr, refl, arith, Bool-cases,
}
use copilot_factory.Service.Errors.{Result, ok, throw, ok_injective}
use copilot_factory.Service.Tables.{
  TaskRow, LeaseRow, Tables, has_task_id, is_at_version, with_version,
}
use copilot_factory.Service.Tables.Rows.{all-replace_first, all-find_first}
use copilot_factory.Service.Lease.{LeaseAcquisitionResult, assign_to, acquire_lease}
use copilot_factory.Service.Lease.Acquire.{acquire_lease-Acquired}
use copilot_factory.Service.Heartbeat.{ReceiveHeartbeatResult, receive_heartbeat}
use copilot_factory.Service.Heartbeat.Beat.{receive_heartbeat-Beat}
use copilot_factory.Service.Reclaim.{
  ReclaimLeaseParams, ReclaimLeaseResult, is_reclaim_eligible, set_outcome, reclaim_noop,
  settle_task, end_lease, reclaim_lease,
}
use copilot_factory.Service.TaskOutcome.{evaluate_task_outcome}
use copilot_factory.Service.Reclaim.Outcome.{reclaim_lease-Reclaimed, apply_outcome-ok}
use copilot_factory.Service.Reclaim.Retries.{evaluate_task_outcome_cases}
use copilot_factory.Service.Exclusivity.{Call, acquire, beat, reclaim, after, perform, perform_all}

-- The task has been retried at most `n` times.
abbrev pub is_within : ℕ → TaskRow → Bool
is_within n task = leb task.retry_count n

-- The retry policy of the call, if it has one, grants at most `n` retries.
abbrev pub grants_within : ℕ → Call → Bool
grants_within n (reclaim p) = leb p.retry_policy.max_attempts n
grants_within n _ = true

new_count_within :
    (n : ℕ) (p : ReclaimLeaseParams) (task : TaskRow)
    → grants_within n (reclaim p) ≡ true
    → is_within n task ≡ true
    → leb
        (evaluate_task_outcome task p.retry_policy p.escalation_policy
          p.has_failure_summary).new_retry_count
        n
      ≡ true
new_count_within n p task g h =
    elim (evaluate_task_outcome_cases task p.retry_policy p.escalation_policy
      p.has_failure_summary) [
        | inl ((below, _), _, e) ↦ rw e (ground arith)
        | inr (_, e, _) ↦ rw e h
      ]

settle_task_within :
    (n : ℕ) (p : ReclaimLeaseParams) (lease lease' : LeaseRow) (task : TaskRow) (db : Tables)
    (w : Tables × ReclaimLeaseResult)
    → grants_within n (reclaim p) ≡ true
    → is_within n task ≡ true
    → all (is_within n) db.tasks ≡ true
    → settle_task p lease lease' task db ≡ ok w
    → all (is_within n) w.0.tasks ≡ true
unfolding settle_task reclaim_noop
settle_task_within n p lease lease' task db w g within h k =
    elim (Bool-cases (is_reclaim_eligible task.status)) [
      | inl e ↦
          let e' : is_reclaim_eligible task.status ≡ true = e in
          let o =
            evaluate_task_outcome task p.retry_policy p.escalation_policy p.has_failure_summary in
          let (_, tasks) =
            apply_outcome-ok p lease lease' task o db w
              (unfold is_reclaim_eligible in rw e' at k) in
          rw tasks (
            all-replace_first (is_at_version task.task_id task.version) (is_within n)
              (with_version task.version (set_outcome o)) db.tasks
              (λ x _. new_count_within n p task g within) h)
      | inr e ↦
          let e' : is_reclaim_eligible task.status ≡ false = e in
          let q : ok (reclaim_noop p lease lease' task db) ≡ ok w =
            unfold is_reclaim_eligible in rw e' at k in
          rw (← ok_injective _ _ q) h
    ]

perform_within :
    (n : ℕ) (c : Call) (db : Tables)
    → grants_within n c ≡ true
    → all (is_within n) db.tasks ≡ true
    → all (is_within n) (perform c db).tasks ≡ true
perform_within n (acquire lease_id now p) db g h = go (acquire_lease lease_id now p db) refl
  where
    go :
        (r : Result (Tables × LeaseAcquisitionResult))
        → acquire_lease lease_id now p db ≡ r
        → all (is_within n) (after db r).tasks ≡ true
    go (ok (db', r)) e =
        let a = acquire_lease-Acquired lease_id now p db db' r e in
        rw a.tasks (
          all-replace_first (is_at_version p.task_id a.task.version) (is_within n)
            (with_version a.task.version (assign_to lease_id)) db.tasks (λ x k. k) h)
    go (throw e) k = h
perform_within n (beat now p) db g h = go (receive_heartbeat now p db) refl
  where
    go :
        (r : Result (Tables × ReceiveHeartbeatResult))
        → receive_heartbeat now p db ≡ r
        → all (is_within n) (after db r).tasks ≡ true
    go (ok w) e = rw (receive_heartbeat-Beat now p db w e).tasks h
    go (throw e) k = h
perform_within n (reclaim p) db g h = go (reclaim_lease p db) refl
  where
    go :
        (r : Result (Tables × ReclaimLeaseResult))
        → reclaim_lease p db ≡ r
        → all (is_within n) (after db r).tasks ≡ true
    go (ok w) e =
        let b = reclaim_lease-Reclaimed p db w e in
        settle_task_within n p b.lease (end_lease p.reason b.lease) b.task b.ended w g
          (all-find_first (has_task_id b.lease.task_id) (is_within n) db.tasks b.task h
            b.task_found)
          (rw b.same_tasks h) b.settled
    go (throw e) k = h

-- If no reclaim runs under a retry policy of more than `n` attempts and no task was retried more often
-- before, no task is ever retried more than `n` times, whatever is acquired, kept alive and reclaimed.
pub perform_all_within :
    (n : ℕ) (calls : List Call) (db : Tables)
    → all (grants_within n) calls ≡ true
    → all (is_within n) db.tasks ≡ true
    → all (is_within n) (perform_all calls db).tasks ≡ true
perform_all_within n [] db g h = h
perform_all_within n (c ∷ calls) db g h =
    perform_all_within n calls (perform c db) (ground arith)
      (perform_within n c db (ground arith) h)
