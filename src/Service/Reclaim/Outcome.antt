-- ===== src/Service/Reclaim/Outcome.antt =====
-- What packages/application/src/services/lease-reclaim.service.ts makes of a lease and its task.
use copilot_factory.Prelude.{
  ℕ, true, false, some, find_first-any, replace_first, ◌≡◌, ◌↔◌, inl, inr, refl, ◌∙◌, sym, subst,
  ap, arith, Bool-cases,
}
use copilot_factory.Domain.Status.Task.{task_status_enum}
use copilot_factory.Domain.Status.Lease.{lease_status_enum}
use copilot_factory.Domain.Machine.Task.{validate_transition}
use copilot_factory.Service.Errors.{
  ok, or_throw, unless_throw, >>=-ok, >>=-passes, or_throw-passes, unless_throw-passes, or_throw-ok,
  unless_throw-ok,
}
use copilot_factory.Service.Tables.{
  TaskRow, LeaseRow, Tables, has_task_id, has_lease_id, find_task, find_lease, update_task,
  update_lease, with_version, is_at_version,
}
use copilot_factory.Service.Tables.Rows.{
  update_task-ok, update_task_passes, update_lease_passes, update_lease-ok,
}
use copilot_factory.Service.Reclaim.{
  ReclaimLeaseParams, ReclaimLeaseResult, is_reclaimable, is_reclaim_eligible, set_outcome,
  apply_outcome, reclaim_noop, settle_task, end_lease, check_reclaim, reclaim_lease,
}
use copilot_factory.Service.TaskOutcome.{
  TaskOutcome, evaluate_task_outcome, build_task_transition_context,
}
use copilot_factory.Service.Reclaim.Steps.{lease_step, evaluate_task_outcome-IsTarget, task_step}

pub check_reclaim_iff :
    (p : ReclaimLeaseParams) (lease : LeaseRow)
    → (check_reclaim p lease ≡ ok tt) ↔ (is_reclaimable lease.status ≡ true)
unfolding check_reclaim
check_reclaim_iff p lease = (
  λ h. let (_, e, _) = >>=-ok _ _ _ h in unless_throw-ok _ _ _ e,
  λ h.
      let h' : is_reclaimable lease.status ≡ true = h in
      let v = lease_step lease.status p.reason h in unfold is_reclaimable in rw (h', v) refl,
)

apply_outcome_passes :
    (p : ReclaimLeaseParams) (lease lease' : LeaseRow) (task : TaskRow) (o : TaskOutcome)
    (db : Tables)
    → find_task task.task_id db ≡ some task
    → (validate_transition task.status o.target_status
        (build_task_transition_context o.target_status)).valid
      ≡ true
    → (w : Tables × ReclaimLeaseResult) × (apply_outcome p lease lease' task o db ≡ ok w)
unfolding apply_outcome
apply_outcome_passes p lease lease' task o db found v =
    let (w, e, _) = update_task_passes (set_outcome o) db task task.task_id found in
    unless_throw-passes _ _ _ v
      (>>=-passes (update_task task.task_id task.version (set_outcome o) db) _ w e (_, refl))

-- Steps 6 to 10 never throw.
settle_task_passes :
    (p : ReclaimLeaseParams) (lease lease' : LeaseRow) (task : TaskRow) (db : Tables) (id : ℕ)
    → find_task id db ≡ some task
    → (w : Tables × ReclaimLeaseResult) × (settle_task p lease lease' task db ≡ ok w)
unfolding settle_task
settle_task_passes p lease lease' task db id found =
    let own : task.task_id ≡ id =
      ground (arith, find_first-any (has_task_id id) db.tasks task found) in
    elim (Bool-cases (is_reclaim_eligible task.status)) [
      | inl e ↦
          let e' : is_reclaim_eligible task.status ≡ true = e in
          let o =
            evaluate_task_outcome task p.retry_policy p.escalation_policy p.has_failure_summary in
          let (w, h) =
            apply_outcome_passes p lease lease' task o db
              (subst (λ i. find_task i db ≡ some task) (sym own) found)
              (task_step task.status o.target_status e (
                evaluate_task_outcome-IsTarget task p.retry_policy p.escalation_policy
                  p.has_failure_summary)) in
          (w, unfold is_reclaim_eligible in rw (e', settle_task) h)
      | inr e ↦
          let e' : is_reclaim_eligible task.status ≡ false = e in
          (
            reclaim_noop p lease lease' task db,
            unfold is_reclaim_eligible in rw (e', settle_task) refl,
          )
    ]

pub apply_outcome-ok :
    (p : ReclaimLeaseParams) (lease lease' : LeaseRow) (task : TaskRow) (o : TaskOutcome)
    (db : Tables) (w : Tables × ReclaimLeaseResult)
    → apply_outcome p lease lease' task o db ≡ ok w
    → (w.0.leases ≡ db.leases)
      × (w.0.tasks
          ≡ replace_first
              (is_at_version task.task_id task.version)
              (with_version task.version (set_outcome o))
              db.tasks)
unfolding apply_outcome
apply_outcome-ok p lease lease' task o db w h =
    let validation =
      validate_transition task.status o.target_status
        (build_task_transition_context o.target_status) in
    let (_, _, h1) = >>=-ok (unless_throw validation.valid _) _ _ h in
    let (t, written, h2) =
      >>=-ok (update_task task.task_id task.version (set_outcome o) db) _ _ h1 in
    let e = update_task-ok task.task_id task.version (set_outcome o) db t written in (cc, cc)

settle_task-ok :
    (p : ReclaimLeaseParams) (lease lease' : LeaseRow) (task : TaskRow) (db : Tables)
    (w : Tables × ReclaimLeaseResult)
    → settle_task p lease lease' task db ≡ ok w
    → w.0.leases ≡ db.leases
unfolding settle_task apply_outcome reclaim_noop
settle_task-ok p lease lease' task db w h = elim (Bool-cases (is_reclaim_eligible task.status)) [
  | inl e ↦
      let e' : is_reclaim_eligible task.status ≡ true = e in
      (apply_outcome-ok p lease lease' task _ db w (unfold is_reclaim_eligible in rw e' at h)).0
  | inr e ↦
      let e' : is_reclaim_eligible task.status ≡ false = e in
      let k : ok (reclaim_noop p lease lease' task db) ≡ ok w =
        unfold is_reclaim_eligible in rw e' at h in
      let q : reclaim_noop p lease lease' task db ≡ w = cc in sym (ap (λ t. t.0.leases) q)
]

-- What a reclaim that returned comes from, and what it leaves in the table of leases.
pub record Reclaimed (p : ReclaimLeaseParams) (db : Tables) (w : Tables × ReclaimLeaseResult)
    : Type 0 where
  pub lease : LeaseRow
  pub task : TaskRow
  pub ended : Tables
  pub found : find_lease p.lease_id db ≡ some lease
  pub reclaimable : is_reclaimable lease.status ≡ true
  pub task_found : find_task lease.task_id db ≡ some task
  pub same_tasks : ended.tasks ≡ db.tasks
  pub settled : settle_task p lease (end_lease p.reason lease) task ended ≡ ok w
  pub leases : w.0.leases ≡ replace_first (has_lease_id p.lease_id) (end_lease p.reason) db.leases

pub reclaim_lease-Reclaimed :
    (p : ReclaimLeaseParams) (db : Tables) (w : Tables × ReclaimLeaseResult)
    → reclaim_lease p db ≡ ok w
    → Reclaimed p db w
unfolding reclaim_lease
reclaim_lease-Reclaimed p db w h =
    let (lease, h_lease, h1) = >>=-ok (or_throw (find_lease p.lease_id db) _) _ _ h in
    let found = or_throw-ok _ _ _ h_lease in
    let (_, h_check, h2) = >>=-ok (check_reclaim p lease) _ _ h1 in
    let (ended, h_end, h3) =
      >>=-ok (update_lease p.lease_id lease.status (end_lease p.reason) db) _ _ h2 in
    let (task, h_task, h4) = >>=-ok (or_throw (find_task lease.task_id ended.0) _) _ _ h3 in
    let e = update_lease-ok p.lease_id (end_lease p.reason) db lease ended found h_end in
    let same_tasks : ended.0.tasks ≡ db.tasks = ap (λ t. t.0.tasks) e in
    let same_row : ended.1 ≡ end_lease p.reason lease = ap (λ t. t.1) e in
    record {
      lease = lease;
      task = task;
      ended = ended.0;
      found = found;
      reclaimable = (check_reclaim_iff p lease).0 h_check;
      task_found = rw same_tasks at (or_throw-ok _ _ _ h_task);
      same_tasks = same_tasks;
      settled = rw same_row at h4;
      leases = settle_task-ok p lease ended.1 task ended.0 w h4 ∙ ap (λ t. t.0.leases) e;
    }

-- `reclaimLease` returns exactly when the lease is there, is STARTING, RUNNING or HEARTBEATING, and
-- its task is there; no state machine refuses, and no version conflicts.
pub reclaim_lease_iff :
    (p : ReclaimLeaseParams) (db : Tables)
    → ((w : Tables × ReclaimLeaseResult) × (reclaim_lease p db ≡ ok w)) ↔ (
        (lease : LeaseRow) × (task : TaskRow) × (find_lease p.lease_id db ≡ some lease)
        × (is_reclaimable lease.status ≡ true)
        × (find_task lease.task_id db ≡ some task))
unfolding reclaim_lease
reclaim_lease_iff p db = (
  λ (w, h).
      let r = reclaim_lease-Reclaimed p db w h in
      (r.lease, r.task, r.found, r.reclaimable, r.task_found),
  λ (lease, task, found, reclaimable, task_found).
      let db1 : Tables = record db {
        leases = replace_first (has_lease_id p.lease_id) (end_lease p.reason) db.leases;
      } in
      or_throw-passes (find_lease p.lease_id db) _ _ lease found (
        >>=-passes (check_reclaim p lease) _ tt ((check_reclaim_iff p lease).1 reclaimable) (
          >>=-passes (update_lease p.lease_id lease.status (end_lease p.reason) db) _
            (db1, end_lease p.reason lease)
            (update_lease_passes p.lease_id (end_lease p.reason) db lease found)
            (or_throw-passes (find_task lease.task_id db1) _ _ task task_found (
              settle_task_passes p lease (end_lease p.reason lease) task db1 lease.task_id
                task_found)))),
)
