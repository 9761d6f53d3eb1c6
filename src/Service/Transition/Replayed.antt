-- ===== src/Service/Transition/Replayed.antt =====
-- `transitionTask` of packages/application/src/services/transition.service.ts over any sequence of calls: the
-- table of tasks next to the state machine.
use copilot_factory.Prelude.{
  ℕ, ◌+◌, Bool, true, false, ◌&&◌, ◌==◌, ==_iff, some, List, [], ◌∷◌, any, cons_if, length,
  find_first, replace_first, ◌≡◌, ◌⊎◌, inl, inr, refl, ap, sym, ◌∙◌, arith, Bool-cases,
}
use copilot_factory.Domain.Status.Task.{TaskStatus, backlog, done}
use copilot_factory.Domain.Machine.Task.Context.{TransitionContext}
use copilot_factory.Domain.Machine.Task.{validate_transition}
use copilot_factory.Domain.Machine.Task.History.{approves, verifies, closes, done_needs_evidence}
use copilot_factory.Domain.Replay.{replay}
use copilot_factory.Service.Errors.{Result, ok, throw}
use copilot_factory.Service.Tables.{
  TaskRow, Tables, has_task_id, is_at_version, with_version, find_task,
}
use copilot_factory.Service.Transition.{
  Request, TransitionOutcome, set_task_status, transition_task,
}
use copilot_factory.Service.Transition.Task.{transition_task-Transitioned}

abbrev pub TaskRequest : Type 0
TaskRequest = Request TaskStatus TransitionContext

abbrev pub after : Tables → Result (Tables × TransitionOutcome TaskRow) → Tables
after db (ok (db', r)) = db'
after db (throw e) = db

abbrev pub perform_all : List TaskRequest → Tables → Tables
perform_all [] db = db
perform_all (r ∷ rs) db = perform_all rs (after db (transition_task r db))

abbrev pub returned : Result (Tables × TransitionOutcome TaskRow) → Bool
returned (ok w) = true
returned (throw e) = false

-- What the calls that returned asked of one task.
abbrev pub accepted : ℕ → List TaskRequest → Tables → List (TaskStatus × TransitionContext)
accepted id [] db = []
accepted id (r ∷ rs) db =
    cons_if (r.id == id && returned (transition_task r db)) (r.target, r.context)
      (accepted id rs (after db (transition_task r db)))

module _ (id expected : ℕ) (f : TaskRow → TaskRow)
    (keeps : (x : TaskRow) → (f x).task_id ≡ x.task_id) where
  replaced_own :
      (rows : List TaskRow) (row : TaskRow)
      → find_first (has_task_id id) rows ≡ some row
      → row.version ≡ expected
      → find_first (has_task_id id) (replace_first (is_at_version id expected) f rows)
        ≡ some (f row)
  replaced_own [] row h v = absurd (cc)
  replaced_own (x ∷ xs) row h v = elim (Bool-cases (x.task_id == id)) [
    | inl e ↦
        let same_row : x ≡ row = ground arith in
        ground
          (arith, keeps x, ap f same_row, ap (λ y. y.version) same_row, ==_iff x.version expected)
    | inr e ↦ ground (arith, replaced_own xs row (ground arith) v)
  ]

  replaced_other :
      (q : ℕ) (rows : List TaskRow)
      → (q == id) ≡ false
      → find_first (has_task_id q) (replace_first (is_at_version id expected) f rows)
        ≡ find_first (has_task_id q) rows
  replaced_other q [] n = refl
  replaced_other q (x ∷ xs) n = elim (Bool-cases (is_at_version id expected x)) [
    | inl e ↦ ground (
      arith,
      keeps x,
      ==_iff x.task_id id,
      ==_iff x.task_id q,
      ==_iff q id,
      ==_iff (f x).task_id q,
    )
    | inr e ↦ ground (arith, replaced_other q xs n)
  ]

-- One call, seen from one task.
record Step (id : ℕ) (r : TaskRequest) (db : Tables) (row row' : TaskRow) : Type 0 where
  pub later : find_task id (after db (transition_task r db)) ≡ some row'
  pub moved :
      (((r.id == id && returned (transition_task r db)) ≡ false) × (row' ≡ row))
      ⊎ (((r.id == id && returned (transition_task r db)) ≡ true)
          × ((validate_transition row.status r.target r.context).valid ≡ true)
          × (row'.status ≡ r.target)
          × (row'.version ≡ row.version + 1))

transition_task-Step :
    (id : ℕ) (r : TaskRequest) (db : Tables) (row : TaskRow)
    → find_task id db ≡ some row
    → (row' : TaskRow) × Step id r db row row'
transition_task-Step id r db row h = go (transition_task r db) refl
  where
    known :
        (w : Tables × TransitionOutcome TaskRow)
        → transition_task r db ≡ ok w
        → (row' : TaskRow) × Step id r db row row'
    known w e =
        let t = transition_task-Transitioned r db w e in
        elim (Bool-cases (r.id == id)) [
          | inl same_id ↦
              let own : r.id ≡ id = (==_iff r.id id).0 same_id in
              let found : find_task r.id db ≡ some row = rw (← own) at h in
              let same_row : t.task ≡ row = cc (t.found, found) in
              let f = with_version t.task.version (set_task_status r.target) in
              (
                f row,
                record {
                  later = rw e (
                      rw (t.tasks, ← own)
                        (replaced_own r.id t.task.version f (λ x. refl) db.tasks row found
                          (ap (λ x. x.version) (sym same_row))));
                  moved =
                      rw (e, same_id)
                        (inr
                          (refl, rw same_row at t.allowed, refl, ap (λ x. x.version + 1) same_row));
                },
              )
          | inr other ↦ (
            row,
            record {
              later = rw e (
                  rw t.tasks (
                    replaced_other r.id t.task.version
                      (with_version t.task.version (set_task_status r.target)) (λ x. refl) id
                      db.tasks (ground (arith, ==_iff r.id id, ==_iff id r.id))
                    ∙ h));
              moved = rw (e, other) (inl (refl, refl));
            },
          )
        ]

    go :
        (x : Result (Tables × TransitionOutcome TaskRow))
        → transition_task r db ≡ x
        → (row' : TaskRow) × Step id r db row row'
    go (ok w) e = known w e
    go (throw s) e = (row, record { later = rw e h; moved = rw e (inl (ground arith, refl)) })

-- The life of a task under any sequence of calls, for this task and others, is a replay of the state
-- machine: the requests that returned, and no others, move it, and each raises its version by one.
pub perform_all-replay :
    (id : ℕ) (rs : List TaskRequest) (db : Tables) (row : TaskRow)
    → find_task id db ≡ some row
    → (last : TaskRow) × (find_task id (perform_all rs db) ≡ some last)
      × (replay validate_transition row.status (accepted id rs db) ≡ some last.status)
      × (last.version ≡ row.version + length (accepted id rs db))
unfolding replay
perform_all-replay id [] db row h = (row, h, refl, ground arith)
perform_all-replay id (r ∷ rs) db row h =
    let (next, s) = transition_task-Step id r db row h in
    let (last, found, played, version) =
      perform_all-replay id rs (after db (transition_task r db)) next s.later in
    (
      last,
      found,
      elim s.moved [
        | inl (skipped, same_row) ↦ rw skipped (rw (ap (λ x. x.status) same_row) at played)
        | inr (counted, valid, status, up) ↦ rw (counted, replay, valid) (rw status at played)
      ],
      elim s.moved [
        | inl (skipped, same_row) ↦ rw skipped (rw same_row at version)
        | inr (counted, valid, status, up) ↦ rw counted (omega (arith, version, up))
      ],
    )

-- So a task that was in BACKLOG and is DONE after some calls was, by calls that returned, approved by the
-- lead reviewer and verified after the merge, or closed by an operator.
pub perform_all-done :
    (id : ℕ) (rs : List TaskRequest) (db : Tables) (row last : TaskRow)
    → find_task id db ≡ some row
    → row.status ≡ backlog
    → find_task id (perform_all rs db) ≡ some last
    → last.status ≡ done
    → ((any approves (accepted id rs db) ≡ true) × (any verifies (accepted id rs db) ≡ true))
      ⊎ (any closes (accepted id rs db) ≡ true)
perform_all-done id rs db row last h from found to =
    let (last', found', played, _) = perform_all-replay id rs db row h in
    let same_row : last' ≡ last = cc (found', found) in
    done_needs_evidence (accepted id rs db) (rw (from, ap (λ x. x.status) same_row, to) at played)
