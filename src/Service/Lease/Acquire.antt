-- ===== src/Service/Lease/Acquire.antt =====
-- When packages/application/src/services/lease.service.ts gives a lease, and what it leaves.
use text.Mathlib.TextEquality.{eq_iff}
use copilot_factory.Prelude.{
  ℕ, true, false, Option, none, some, any, push, replace_first, ◌≡◌, ◌↔◌, refl, arith, inl, inr,
  Bool-cases,
}
use copilot_factory.Domain.Status.Task.{
  TaskStatus, ready, changes_requested, escalated, assigned, task_status_enum,
}
use copilot_factory.Domain.Machine.Task.{validate_transition}
use copilot_factory.Service.Errors.{
  ok, ◌>>◌, or_throw, EntityType, ServiceError, >>=-ok, >>=-passes, or_throw-ok, unless_throw-ok,
}
use copilot_factory.Service.Tables.{
  TaskRow, LeaseRow, ActorInfo, Tables, has_lease_id, has_pool_id, is_active_for, is_at_version,
  find_task, find_active_by_task_id, update_task, insert_lease, with_version,
}
use copilot_factory.Service.Tables.Rows.{update_task-ok, update_task_passes, find_first-none}
use copilot_factory.Service.Tables.Exclusive.{IsExclusive, IsExclusive-push}
use copilot_factory.Service.Lease.{
  AcquireLeaseParams, LeaseAcquisitionResult, acquisition_context, new_lease, assign_to,
  refuse_active, assign_lease, check_acquisition, acquire_lease, is_lease_eligible,
}

-- The states of a task in which its lease may be acquired by an actor.
pub data MayAcquire (actor : ActorInfo) : TaskStatus → Type 0 where
  may_start : MayAcquire actor ready
  may_rework : MayAcquire actor changes_requested
  may_resolve : actor.type ≡ "operator" → MayAcquire actor escalated

refuse_active-ok :
    (id : ℕ) (found : Option LeaseRow) (u : Unit {0}) → refuse_active id found ≡ ok u → found ≡ none
refuse_active-ok id none u h = refl
refuse_active-ok id (some row) u h = absurd (cc)

may_acquire :
    (actor : ActorInfo) (s : TaskStatus)
    → is_lease_eligible s ≡ true
    → (validate_transition s assigned (acquisition_context actor)).valid ≡ true
    → MayAcquire actor s
unfolding is_lease_eligible validate_transition
may_acquire actor ready h v = may_start
may_acquire actor changes_requested h v = may_rework
may_acquire actor escalated h v = may_resolve (ground (arith, eq_iff actor.type "operator"))
may_acquire actor _ h v = absurd (ground arith)

check_acquisition-ok :
    (p : AcquireLeaseParams) (task : TaskRow) (db : Tables) (u : Unit {0})
    → check_acquisition p task db ≡ ok u
    → MayAcquire p.actor task.status × (find_active_by_task_id p.task_id db ≡ none)
unfolding check_acquisition
check_acquisition-ok p task db u h =
    let (_, eligible, h1) = >>=-ok _ _ _ h in
    let (_, free, h2) = >>=-ok _ _ _ h1 in
    (
      may_acquire p.actor task.status (unless_throw-ok _ _ _ eligible) (unless_throw-ok _ _ _ h2),
      refuse_active-ok _ _ _ free,
    )

MayAcquire-passes :
    (actor : ActorInfo) (s : TaskStatus)
    → MayAcquire actor s
    → (is_lease_eligible s ≡ true)
      × ((validate_transition s assigned (acquisition_context actor)).valid ≡ true)
unfolding is_lease_eligible validate_transition
MayAcquire-passes actor s may_start = (refl, refl)
MayAcquire-passes actor s may_rework = (refl, refl)
MayAcquire-passes actor s (may_resolve o) =
    (refl, ground (arith, (eq_iff actor.type "operator").1 o))

check_acquisition_passes :
    (p : AcquireLeaseParams) (task : TaskRow) (db : Tables)
    → MayAcquire p.actor task.status
    → find_active_by_task_id p.task_id db ≡ none
    → check_acquisition p task db ≡ ok tt
unfolding check_acquisition
check_acquisition_passes p task db m free =
    let (e, v) = MayAcquire-passes p.actor task.status m in
    let e' : is_lease_eligible task.status ≡ true = e in
    unfold is_lease_eligible in rw (e', free, v) refl

-- What a given lease comes from, and what it leaves in the tables.
pub record Acquired (lease_id now : ℕ) (p : AcquireLeaseParams) (db db' : Tables) : Type 0 where
  pub task : TaskRow
  pub found : find_task p.task_id db ≡ some task
  pub allowed : MayAcquire p.actor task.status
  pub free : find_active_by_task_id p.task_id db ≡ none
  pub fresh : any (has_lease_id lease_id) db.leases ≡ false
  pub pool_there : any (has_pool_id p.pool_id) db.pools ≡ true
  pub leases : db'.leases ≡ push db.leases (new_lease lease_id now p)
  pub tasks :
      db'.tasks
      ≡ replace_first
          (is_at_version p.task_id task.version)
          (with_version task.version (assign_to lease_id))
          db.tasks
  pub pools : db'.pools ≡ db.pools

insert_lease-ok :
    (row : LeaseRow) (db db' : Tables)
    → insert_lease row db ≡ ok db'
    → (any (has_lease_id row.lease_id) db.leases ≡ false)
      × (any (has_pool_id row.pool_id) db.pools ≡ true)
      × (db' ≡ record db { leases = push db.leases row })
unfolding insert_lease
insert_lease-ok row db db' h = elim (Bool-cases (any (has_lease_id row.lease_id) db.leases)) [
  | inl e ↦ absurd (let h' = rw (e, insert_lease) at h in cc)
  | inr e ↦ elim (Bool-cases (any (has_pool_id row.pool_id) db.pools)) [
    | inl t ↦ (e, t, let h' = rw (e, t, insert_lease) at h in cc)
    | inr t ↦ absurd (let h' = rw (e, t, insert_lease) at h in cc)
  ]
]

assign_lease-ok :
    (lease_id now : ℕ) (p : AcquireLeaseParams) (task : TaskRow) (db db' : Tables)
    (r : LeaseAcquisitionResult)
    → assign_lease lease_id now p task db ≡ ok (db', r)
    → (any (has_lease_id lease_id) db.leases ≡ false)
      × (any (has_pool_id p.pool_id) db.pools ≡ true)
      × (db'.leases ≡ push db.leases (new_lease lease_id now p))
      × (db'.tasks
          ≡ replace_first
              (is_at_version p.task_id task.version)
              (with_version task.version (assign_to lease_id))
              db.tasks)
      × (db'.pools ≡ db.pools)
unfolding assign_lease
assign_lease-ok lease_id now p task db db' r h =
    let (db1, inserted, h1) = >>=-ok (insert_lease (new_lease lease_id now p) db) _ _ h in
    let (w, updated, h2) =
      >>=-ok (update_task p.task_id task.version (assign_to lease_id) db1) _ _ h1 in
    let (fresh, there, e1) = insert_lease-ok (new_lease lease_id now p) db db1 inserted in
    let e2 = update_task-ok p.task_id task.version (assign_to lease_id) db1 w updated in
    (fresh, there, cc, cc, cc)

pub acquire_lease-Acquired :
    (lease_id now : ℕ) (p : AcquireLeaseParams) (db db' : Tables) (r : LeaseAcquisitionResult)
    → acquire_lease lease_id now p db ≡ ok (db', r)
    → Acquired lease_id now p db db'
unfolding acquire_lease
acquire_lease-Acquired lease_id now p db db' r h =
    let (task, found, h1) =
      >>=-ok
        (or_throw (find_task p.task_id db)
          (ServiceError.entity_not_found EntityType.task p.task_id))
        (λ task. check_acquisition p task db >> assign_lease lease_id now p task db) (db', r) h in
    let (u, checks, h2) = >>=-ok (check_acquisition p task db) _ _ h1 in
    let (allowed, free) = check_acquisition-ok p task db u checks in
    let (fresh, there, leases, tasks, pools) = assign_lease-ok lease_id now p task db db' r h2 in
    record {
      task = task;
      found = or_throw-ok _ _ _ found;
      allowed = allowed;
      free = free;
      fresh = fresh;
      pool_there = there;
      leases = leases;
      tasks = tasks;
      pools = pools;
    }

assign_lease_passes :
    (lease_id now : ℕ) (p : AcquireLeaseParams) (task : TaskRow) (db : Tables)
    → find_task p.task_id db ≡ some task
    → any (has_lease_id lease_id) db.leases ≡ false
    → any (has_pool_id p.pool_id) db.pools ≡ true
    → (w : Tables × LeaseAcquisitionResult) × (assign_lease lease_id now p task db ≡ ok w)
unfolding assign_lease insert_lease
assign_lease_passes lease_id now p task db found fresh there =
    let db1 : Tables = record db { leases = push db.leases (new_lease lease_id now p) } in
    let (w, e, _) = update_task_passes (assign_to lease_id) db1 task p.task_id found in
    >>=-passes (insert_lease (new_lease lease_id now p) db) _ db1
      (rw (fresh, there, insert_lease) refl)
      (>>=-passes (update_task p.task_id task.version (assign_to lease_id) db1) _ w e (_, refl))

-- `acquireLease` gives a lease exactly when the task is there, it is READY or CHANGES_REQUESTED, or
-- ESCALATED and the actor is an operator, it has no active lease, the new identifier is not taken, and the
-- worker pool of the request is there.
pub acquire_lease_iff :
    (lease_id now : ℕ) (p : AcquireLeaseParams) (db : Tables)
    → ((w : Tables × LeaseAcquisitionResult) × (acquire_lease lease_id now p db ≡ ok w)) ↔ (
        (task : TaskRow) × (find_task p.task_id db ≡ some task)
        × MayAcquire p.actor task.status
        × (find_active_by_task_id p.task_id db ≡ none)
        × (any (has_lease_id lease_id) db.leases ≡ false)
        × (any (has_pool_id p.pool_id) db.pools ≡ true))
unfolding acquire_lease
acquire_lease_iff lease_id now p db = (
  λ ((db', r), h).
      let a = acquire_lease-Acquired lease_id now p db db' r h in
      (a.task, a.found, a.allowed, a.free, a.fresh, a.pool_there),
  λ (task, found, allowed, free, fresh, there).
      let c = check_acquisition_passes p task db allowed free in
      let (w, e) = assign_lease_passes lease_id now p task db found fresh there in
      (w, rw (found, c, acquire_lease) e),
)

-- A lease that `acquireLease` gives is the only active one of its task, and so it stays for the others.
pub acquire_lease-IsExclusive :
    (lease_id now : ℕ) (p : AcquireLeaseParams) (db db' : Tables) (r : LeaseAcquisitionResult)
    → acquire_lease lease_id now p db ≡ ok (db', r)
    → IsExclusive db.leases
    → IsExclusive db'.leases
acquire_lease-IsExclusive lease_id now p db db' r h e =
    let a = acquire_lease-Acquired lease_id now p db db' r h in
    rw a.leases (
      IsExclusive-push db.leases (new_lease lease_id now p) a.fresh
        (find_first-none (is_active_for p.task_id) db.leases a.free) e)
