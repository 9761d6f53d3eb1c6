-- ===== src/Service/Transition/Task.antt =====
-- `transitionTask` of packages/application/src/services/transition.service.ts: when it returns, and what it
-- leaves.
use copilot_factory.Prelude.{
  true, false, Option, none, some, push, replace_first, ◌≡◌, ◌⊎◌, inl, inr, refl, ap, Bool-cases,
  Option-cases,
}
use copilot_factory.Domain.Status.Task.{TaskStatus}
use copilot_factory.Domain.Machine.Task.Context.{TransitionContext}
use copilot_factory.Domain.Machine.Task.{validate_transition}
use copilot_factory.Service.Errors.{ok, throw, EntityType, ServiceError, Status}
use copilot_factory.Service.Tables.{TaskRow, Tables, is_at_version, with_version, find_task}
use copilot_factory.Service.Tables.Rows.{update_task_passes, update_task-ok}
use copilot_factory.Service.Transition.{
  Request, TransitionOutcome, set_task_status, task_audit, task_outcome, transition_task,
}

-- What a call that returns found and left.
pub record Transitioned (r : Request TaskStatus TransitionContext) (db : Tables)
    (w : Tables × TransitionOutcome TaskRow) : Type 0 where
  pub task : TaskRow
  pub found : find_task r.id db ≡ some task
  pub allowed : (validate_transition task.status r.target r.context).valid ≡ true
  pub tasks :
      w.0.tasks
      ≡ replace_first
          (is_at_version r.id task.version)
          (with_version task.version (set_task_status r.target))
          db.tasks
  pub leases : w.0.leases ≡ db.leases
  pub audits : w.0.audit_events ≡ push db.audit_events (task_audit task r)
  pub entity : w.1.entity ≡ with_version task.version (set_task_status r.target) task

pub transition_task-found :
    (r : Request TaskStatus TransitionContext) (db : Tables) (task : TaskRow)
    → find_task r.id db ≡ some task
    → (validate_transition task.status r.target r.context).valid ≡ true
    → (w : Tables × TransitionOutcome TaskRow) × (transition_task r db ≡ ok w) × Transitioned r db w
unfolding transition_task
transition_task-found r db task found v =
    let (u, e, s) = update_task_passes (set_task_status r.target) db task r.id found in
    let t = update_task-ok r.id task.version (set_task_status r.target) db u e in
    (
      task_outcome task r u,
      rw (transition_task, found, v, e) refl,
      record {
        task = task;
        found = found;
        allowed = v;
        tasks = ap (λ d. d.tasks) t;
        leases = ap (λ d. d.leases) t;
        audits = ap (λ d. push d.audit_events (task_audit task r)) t;
        entity = s;
      },
    )

pub transition_task-Transitioned :
    (r : Request TaskStatus TransitionContext) (db : Tables)
    (w : Tables × TransitionOutcome TaskRow)
    → transition_task r db ≡ ok w
    → Transitioned r db w
unfolding transition_task
transition_task-Transitioned r db w h = go (find_task r.id db) refl
  where
    known :
        (task : TaskRow)
        → find_task r.id db ≡ some task
        → (validate_transition task.status r.target r.context).valid ≡ true
        → Transitioned r db w
    known task f v =
        let (w', e, t) = transition_task-found r db task f v in
        let same : w' ≡ w = cc in rw same at t

    go : (found : Option TaskRow) → find_task r.id db ≡ found → Transitioned r db w
    go none f = absurd (let h' = rw (transition_task, f) at h in cc)
    go (some task) f =
        elim (Bool-cases (validate_transition task.status r.target r.context).valid) [
          | inl v ↦ known task f v
          | inr v ↦ absurd (let h' = rw (transition_task, f, v) at h in cc)
        ]

-- `transitionTask` returns exactly when the task is there and the state machine allows the transition on
-- the given evidence; else it throws the error that says so, and never a version conflict: within its
-- transaction nobody else writes the row that it has read.
pub transition_task_cases :
    (r : Request TaskStatus TransitionContext) (db : Tables)
    → ((find_task r.id db ≡ none)
        × (transition_task r db ≡ throw (ServiceError.entity_not_found EntityType.task r.id)))
      ⊎ ((task : TaskRow) × (find_task r.id db ≡ some task)
          × ((((validate_transition task.status r.target r.context).valid ≡ false)
                × (transition_task r db
                    ≡ throw (
                        ServiceError.invalid_transition EntityType.task r.id
                          (Status.of_task task.status)
                          (Status.of_task r.target)
                          (validate_transition task.status r.target r.context).reason)))
              ⊎ ((w : Tables × TransitionOutcome TaskRow) × (transition_task r db ≡ ok w)
                  × Transitioned r db w)))
unfolding transition_task
transition_task_cases r db = elim (Option-cases (find_task r.id db)) [
  | inl f ↦ inl (f, rw (transition_task, f) refl)
  | inr (task, f) ↦ inr (
    task,
    f,
    elim (Bool-cases (validate_transition task.status r.target r.context).valid) [
      | inl v ↦ inr (transition_task-found r db task f v)
      | inr v ↦ inl (v, rw (transition_task, f, v) refl)
    ],
  )
]
