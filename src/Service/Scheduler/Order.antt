-- ===== src/Service/Scheduler/Order.antt =====
-- The order in which packages/application/src/services/scheduler.service.ts takes the tasks.
use copilot_factory.Prelude.{
  ℕ, zero, ◌==◌, ◌≤◌, Bool-cases, Option, none, some, length, same_iff, suc, true, false, List, [],
  ◌∷◌, filterb, sort_by, take, ltb, ◌≡◌, ◌⊎◌, inl, inr, refl, arith, Memᴰ, not-nil, cases_cons,
  IsSorted, sort_by-IsSorted, Memᴰ-sort_by, sort_by-Memᴰ, Memᴰ-filterb, filterb-Memᴰ, Memᴰ-take,
}
use copilot_factory.Domain.Status.Task.{ready, task_status_enum}
use copilot_factory.Service.Tables.{TaskRow, find_task}
use copilot_factory.Domain.Status.Job.{
  TaskPriority, critical, high, medium, low, task_priority_enum,
}
use copilot_factory.Service.Scheduler.{
  SchedulableTask, World, priority_rank, goes_before, is_not_later, is_ready, has_status,
  find_ready_by_priority,
}

-- `PRIORITY_RANK` of the adapter and `comparePriority` of the service agree.
pub priority_rank-goes_before :
    (a b : TaskPriority) → ltb (priority_rank a) (priority_rank b) ≡ goes_before a b
unfolding priority_rank goes_before
priority_rank-goes_before critical b = elim b [
  | critical ↦ refl
  | high ↦ refl
  | medium ↦ refl
  | low ↦ refl
]
priority_rank-goes_before high b = elim b [
  | critical ↦ refl
  | high ↦ refl
  | medium ↦ refl
  | low ↦ refl
]
priority_rank-goes_before medium b = elim b [
  | critical ↦ refl
  | high ↦ refl
  | medium ↦ refl
  | low ↦ refl
]
priority_rank-goes_before low b = elim b [
  | critical ↦ refl
  | high ↦ refl
  | medium ↦ refl
  | low ↦ refl
]

is_not_later_total : (x y : SchedulableTask) → is_not_later x y ≡ false → is_not_later y x ≡ true
is_not_later_total x y e = ground arith

is_not_later_trans :
    (x y z : SchedulableTask)
    → is_not_later x y ≡ true
    → is_not_later y z ≡ true
    → is_not_later x z ≡ true
is_not_later_trans x y z a b = ground arith

take-IsSorted :
    (n : ℕ) (xs : List SchedulableTask)
    → IsSorted is_not_later xs
    → IsSorted is_not_later (take n xs)
take-IsSorted zero xs s = tt
take-IsSorted (suc n) [] s = tt
take-IsSorted (suc n) (x ∷ xs) (below, s) =
    (λ y m. below y (Memᴰ-take n xs y m), take-IsSorted n xs s)

-- What is cut off comes later than all that is taken, which then is as much as may be.
take-cut :
    (n : ℕ) (xs : List SchedulableTask) (z : SchedulableTask)
    → IsSorted is_not_later xs
    → Memᴰ z xs
    → Memᴰ z (take n xs)
      ⊎ ((length (take n xs) ≡ n)
          × ((y : SchedulableTask) → Memᴰ y (take n xs) → is_not_later y z ≡ true))
take-cut zero xs z s k = inr (refl, λ y m. absurd (not-nil m))
take-cut (suc n) [] z s k = absurd (not-nil k)
take-cut (suc n) (x ∷ xs) z (below, s) k = elim (cases_cons k) [
  | inl e ↦ inl (Memᴰ.head e)
  | inr l ↦ elim (take-cut n xs z s l) [
    | inl t ↦ inl (Memᴰ.tail t)
    | inr (e, later) ↦
        inr
          (omega arith, λ y m. elim (cases_cons m) [ inl h ↦ rw h (below z l) | inr t ↦ later y t ])
  ]
]

ready_IsSorted :
    (w : World) → IsSorted is_not_later (sort_by is_not_later (filterb (is_ready w.db) w.queue))
ready_IsSorted w =
    sort_by-IsSorted is_not_later is_not_later_total is_not_later_trans
      (filterb (is_ready w.db) w.queue)

pub find_ready_by_priority-ready :
    (limit : ℕ) (w : World) (t : SchedulableTask)
    → Memᴰ t (find_ready_by_priority limit w)
    → Memᴰ t w.queue × (is_ready w.db t ≡ true)
unfolding find_ready_by_priority
find_ready_by_priority-ready limit w t m = Memᴰ-filterb (is_ready w.db) w.queue t (
    Memᴰ-sort_by is_not_later (filterb (is_ready w.db) w.queue) t
      (Memᴰ-take limit (sort_by is_not_later (filterb (is_ready w.db) w.queue)) t m))

-- The order of priorities, the more urgent first.
pub data Outranks : TaskPriority → TaskPriority → Type 0 where
  critical_high : Outranks critical high
  critical_medium : Outranks critical medium
  critical_low : Outranks critical low
  high_medium : Outranks high medium
  high_low : Outranks high low
  medium_low : Outranks medium low

-- The order in which tasks are taken: by priority, and within one by age.
pub data NotLater (left right : SchedulableTask) : Type 0 where
  by_priority : Outranks left.priority right.priority → NotLater left right
  by_age : left.priority ≡ right.priority → left.created_at ≤ right.created_at → NotLater left right

compared :
    (a b : TaskPriority)
    → ((priority_rank a == priority_rank b) ≡ true → a ≡ b)
      × (ltb (priority_rank a) (priority_rank b) ≡ true → Outranks a b)
unfolding priority_rank
compared critical critical = (λ h. refl, λ h. absurd (cc))
compared critical high = (λ h. absurd (cc), λ h. critical_high)
compared critical medium = (λ h. absurd (cc), λ h. critical_medium)
compared critical low = (λ h. absurd (cc), λ h. critical_low)
compared high critical = (λ h. absurd (cc), λ h. absurd (cc))
compared high high = (λ h. refl, λ h. absurd (cc))
compared high medium = (λ h. absurd (cc), λ h. high_medium)
compared high low = (λ h. absurd (cc), λ h. high_low)
compared medium critical = (λ h. absurd (cc), λ h. absurd (cc))
compared medium high = (λ h. absurd (cc), λ h. absurd (cc))
compared medium medium = (λ h. refl, λ h. absurd (cc))
compared medium low = (λ h. absurd (cc), λ h. medium_low)
compared low critical = (λ h. absurd (cc), λ h. absurd (cc))
compared low high = (λ h. absurd (cc), λ h. absurd (cc))
compared low medium = (λ h. absurd (cc), λ h. absurd (cc))
compared low low = (λ h. refl, λ h. absurd (cc))

is_not_later-NotLater :
    (left right : SchedulableTask) → is_not_later left right ≡ true → NotLater left right
is_not_later-NotLater left right h =
    let (same_rank, lower) = compared left.priority right.priority in
    elim (Bool-cases (priority_rank left.priority == priority_rank right.priority)) [
      | inl e ↦ by_age (same_rank e) (ground arith)
      | inr e ↦ by_priority (lower (ground arith))
    ]

abbrev pub AreInOrder : List SchedulableTask → Type 0
AreInOrder [] = Unit
AreInOrder (t ∷ ts) = ((u : SchedulableTask) → Memᴰ u ts → NotLater t u) × AreInOrder ts

IsSorted-AreInOrder : (ts : List SchedulableTask) → IsSorted is_not_later ts → AreInOrder ts
IsSorted-AreInOrder [] s = tt
IsSorted-AreInOrder (t ∷ ts) (below, s) =
    (λ u m. is_not_later-NotLater t u (below u m), IsSorted-AreInOrder ts s)

-- A task of the queue whose row is READY.
pub record IsWaiting (w : World) (t : SchedulableTask) : Type 0 where
  pub queued : Memᴰ t w.queue
  pub row : TaskRow
  pub found : find_task t.task_id w.db ≡ some row
  pub status : row.status ≡ ready

ready_row :
    (found : Option TaskRow)
    → has_status ready found ≡ true
    → (row : TaskRow) × (found ≡ some row) × (row.status ≡ ready)
ready_row none h = absurd (cc)
ready_row (some row) h = (row, refl, (same_iff row.status ready).0 h)

-- The candidates of a call.
pub record AreFirst (limit : ℕ) (w : World) (candidates : List SchedulableTask) : Type 0 where
  pub waiting : (t : SchedulableTask) → Memᴰ t candidates → IsWaiting w t
  pub in_order : AreInOrder candidates
  pub cut :
      (other : SchedulableTask)
      → IsWaiting w other
      → Memᴰ other candidates
        ⊎ ((length candidates ≡ limit)
            × ((t : SchedulableTask) → Memᴰ t candidates → NotLater t other))

-- The candidates of a call are queued tasks in READY, the more urgent before the less urgent and the older
-- first among equals; a task in READY that is not among them comes later than all of them, and then there
-- are as many of them as the limit says.
pub find_ready_by_priority-AreFirst :
    (limit : ℕ) (w : World) → AreFirst limit w (find_ready_by_priority limit w)
unfolding find_ready_by_priority
find_ready_by_priority-AreFirst limit w = record {
  waiting = λ t m.
      let (queued, r) = find_ready_by_priority-ready limit w t m in
      let (row, found, status) = ready_row (find_task t.task_id w.db) r in
      record { queued = queued; row = row; found = found; status = status };
  in_order = IsSorted-AreInOrder (find_ready_by_priority limit w) (
      take-IsSorted limit (sort_by is_not_later (filterb (is_ready w.db) w.queue))
        (ready_IsSorted w));
  cut = λ other x.
      let r : is_ready w.db other ≡ true = rw x.found ((same_iff x.row.status ready).1 x.status) in
      elim (take-cut limit (sort_by is_not_later (filterb (is_ready w.db) w.queue)) other
        (ready_IsSorted w)
        (sort_by-Memᴰ is_not_later (filterb (is_ready w.db) w.queue) other
          (filterb-Memᴰ (is_ready w.db) w.queue other x.queued r))) [
            | inl m ↦ inl m
            | inr (e, later) ↦ inr (e, λ t m. is_not_later-NotLater t other (later t m))
          ];
}
