-- ===== src/Service/Tables/Rows.antt =====
-- Rows that are found, inserted and replaced.
use copilot_factory.Prelude.{
  ℕ, Bool, true, false, ◌||◌, ◌==◌, ==_iff, none, some, List, [], ◌∷◌, any, all, push, find_first,
  replace_first, ◌≡◌, inl, inr, refl, arith, Bool-cases, Option-cases, ap, same_self,
}
use copilot_factory.Domain.Status.Lease.{lease_status_enum}
use copilot_factory.Service.Errors.{ok}
use copilot_factory.Service.Tables.{
  TaskRow, LeaseRow, Tables, has_task_id, has_lease_id, is_at_version, with_version, find_task,
  find_lease, update_task, update_lease,
}

module _ {ℓ} {A : Type ℓ} (p : A → Bool) where
  pub any-push : (xs : List A) (x : A) → any p (push xs x) ≡ (any p xs || p x)
  any-push [] x = ground arith
  any-push (y ∷ ys) x = ground (arith, any-push ys x)

  -- Nothing is found exactly when nothing passes the test.
  pub find_first-none : (xs : List A) → find_first p xs ≡ none → any p xs ≡ false
  find_first-none [] h = refl
  find_first-none (y ∷ ys) h = elim (Bool-cases (p y)) [
    | inl e ↦ absurd (ground arith)
    | inr e ↦ ground (arith, find_first-none ys (ground arith))
  ]

  pub find_first-some : (xs : List A) (x : A) → find_first p xs ≡ some x → any p xs ≡ true
  find_first-some [] x h = absurd (cc)
  find_first-some (y ∷ ys) x h = elim (Bool-cases (p y)) [
    | inl e ↦ ground arith
    | inr e ↦ ground (arith, find_first-some ys x (ground arith))
  ]

  pub any-find_first : (xs : List A) → any p xs ≡ true → (x : A) × (find_first p xs ≡ some x)
  any-find_first [] h = absurd (cc)
  any-find_first (y ∷ ys) h = elim (Bool-cases (p y)) [
    | inl e ↦ (y, ground arith)
    | inr e ↦ let (x, f) = any-find_first ys (ground arith) in (x, ground arith)
  ]

  -- What a replaced table shows to another test, it showed before, if the replaced row did.
  pub any-replace_first :
      (q : A → Bool) (f : A → A) (xs : List A) (x : A)
      → find_first p xs ≡ some x
      → (q (f x) ≡ true → q x ≡ true)
      → any q (replace_first p f xs) ≡ true
      → any q xs ≡ true
  any-replace_first q f [] x h k a = absurd (cc)
  any-replace_first q f (y ∷ ys) x h k a = elim (Bool-cases (p y)) [
    | inl e ↦ let same_row : y ≡ x = ground arith in ground (arith, rw (← same_row) at k)
    | inr e ↦ ground (arith, any-replace_first q f ys x (ground arith) k)
  ]

module _ {ℓ} {A : Type ℓ} (p : A → Bool) where
  -- What another row shows to a test, the table shows after the replacement too.
  pub any-replace_first_kept :
      (q : A → Bool) (f : A → A) (xs : List A) (x : A)
      → find_first p xs ≡ some x
      → q x ≡ false
      → any q xs ≡ true
      → any q (replace_first p f xs) ≡ true
  any-replace_first_kept q f [] x h k a = absurd (cc)
  any-replace_first_kept q f (y ∷ ys) x h k a = elim (Bool-cases (p y)) [
    | inl e ↦ let same_row : x ≡ y = ground arith in ground (arith, rw same_row at k)
    | inr e ↦ ground (arith, any-replace_first_kept q f ys x (ground arith) k)
  ]

  pub any-weaken :
      (q : A → Bool) (xs : List A)
      → ((x : A) → p x ≡ true → q x ≡ true)
      → any p xs ≡ true
      → any q xs ≡ true
  any-weaken q [] k a = absurd (cc)
  any-weaken q (y ∷ ys) k a = ground (arith, k y, any-weaken q ys k)

-- The row that a key finds is the row at its own version.
pub find_task-is_at_version :
    (id : ℕ) (rows : List TaskRow) (row : TaskRow)
    → find_first (has_task_id id) rows ≡ some row
    → find_first (is_at_version id row.version) rows ≡ some row
find_task-is_at_version id [] row h = absurd (cc)
find_task-is_at_version id (r ∷ rs) row h = elim (Bool-cases (r.task_id == id)) [
  | inl e ↦
      let same_row : r ≡ row = ground arith in
      let same_version : (r.version == row.version) ≡ true =
        (==_iff r.version row.version).1 (ap (λ x. x.version) same_row) in
      ground arith
  | inr e ↦ ground (arith, find_task-is_at_version id rs row (ground arith))
]

pub update_task_passes :
    (set : TaskRow → TaskRow) (db : Tables) (row : TaskRow) (id : ℕ)
    → find_task id db ≡ some row
    → (w : Tables × TaskRow) × (update_task id row.version set db ≡ ok w)
      × (w.1 ≡ with_version row.version set row)
unfolding update_task
update_task_passes set db row id h =
    let e = find_task-is_at_version id db.tasks row h in
    (
      (
        record db {
          tasks =
              replace_first (is_at_version id row.version) (with_version row.version set) db.tasks;
        },
        with_version row.version set row,
      ),
      rw (e, update_task) refl,
      refl,
    )

pub update_task-ok :
    (id expected : ℕ) (set : TaskRow → TaskRow) (db : Tables) (w : Tables × TaskRow)
    → update_task id expected set db ≡ ok w
    → w.0 ≡ record db {
      tasks = replace_first (is_at_version id expected) (with_version expected set) db.tasks;
    }
unfolding update_task
update_task-ok id expected set db w h =
    elim (Option-cases (find_first (is_at_version id expected) db.tasks)) [
      | inl e ↦ absurd (ground (arith, e))
      | inr (row, e) ↦ ground (arith, e)
    ]

pub update_lease_passes :
    (id : ℕ) (set : LeaseRow → LeaseRow) (db : Tables) (row : LeaseRow)
    → find_lease id db ≡ some row
    → update_lease id row.status set db
      ≡ ok (record db { leases = replace_first (has_lease_id id) set db.leases }, set row)
unfolding update_lease
update_lease_passes id set db row h = rw (h, same_self row.status, update_lease) refl

pub update_lease-ok :
    (id : ℕ) (set : LeaseRow → LeaseRow) (db : Tables) (row : LeaseRow) (w : Tables × LeaseRow)
    → find_lease id db ≡ some row
    → update_lease id row.status set db ≡ ok w
    → w ≡ (record db { leases = replace_first (has_lease_id id) set db.leases }, set row)
update_lease-ok id set db row w h k = cc (update_lease_passes id set db row h, k)

module _ {ℓ} {A : Type ℓ} (p q : A → Bool) where
  pub all-replace_first :
      (f : A → A) (xs : List A)
      → ((x : A) → q x ≡ true → q (f x) ≡ true)
      → all q xs ≡ true
      → all q (replace_first p f xs) ≡ true
  all-replace_first f [] k a = refl
  all-replace_first f (y ∷ ys) k a = elim (Bool-cases (p y)) [
    | inl e ↦ ground (arith, k y)
    | inr e ↦ ground (arith, all-replace_first f ys k)
  ]

  pub all-find_first :
      (xs : List A) (x : A) → all q xs ≡ true → find_first p xs ≡ some x → q x ≡ true
  all-find_first [] x a h = absurd (cc)
  all-find_first (y ∷ ys) x a h = elim (Bool-cases (p y)) [
    | inl e ↦ let same_row : y ≡ x = ground arith in rw (← same_row) (ground arith)
    | inr e ↦ all-find_first ys x (ground arith) (ground arith)
  ]
