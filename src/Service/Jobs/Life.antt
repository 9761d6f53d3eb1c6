-- ===== src/Service/Jobs/Life.antt =====
-- packages/application/src/services/job-queue.service.ts as a whole: the table of jobs over any sequence
-- of its calls, seen as the status and the number of attempts of each identifier.
pub mod Follows
pub mod Calls
use mathlib.Core.Path.{fun_ext}
use copilot_factory.Prelude.{
  ℕ, ◌+◌, Bool, true, false, ◌==◌, ==_iff, Option, none, some, List, [], ◌∷◌, any, push, find_first,
  replace_first, if◌then◌else◌, ◌≡◌, ◌∙◌, ◌⊎◌, inl, inr, refl, ap, arith, Bool-cases, Option-cases,
  find_first-any, find_first-Memᴰ, any-Memᴰ,
}
use copilot_factory.Domain.Status.Job.{JobStatus, pending, claimed, running, completed, failed}
use copilot_factory.Service.JobTable.{JobRow, has_job_id, find_job}
use copilot_factory.Service.JobTable.Rows.{IsKeyed}

-- The abstract queue: what is known of each identifier.
abbrev pub View : Type 0
View = ℕ → Option (JobStatus × ℕ)

abbrev pub progress : Option JobRow → Option (JobStatus × ℕ)
progress none = none
progress (some row) = some (row.status, row.attempt_count)

abbrev pub view : List JobRow → View
view jobs id = progress (find_job id jobs)

abbrev pub update : View → ℕ → JobStatus × ℕ → View
update v id x q = if q == id then some x else v q

-- The life cycle at the head of the source file, with the count of attempts.
pub data Moves : JobStatus → ℕ → JobStatus → ℕ → Type 0 where
  claims : {n : ℕ} → Moves pending n claimed (n + 1)
  starts : {n : ℕ} → Moves claimed n running n
  completes_early : {n : ℕ} → Moves claimed n completed n
  completes : {n : ℕ} → Moves running n completed n
  fails_early : {n : ℕ} → Moves claimed n failed n
  fails : {n : ℕ} → Moves running n failed n

-- What one call may do to the abstract queue.
pub data Step (v w : View) : Type 0 where
  stays : w ≡ v → Step v w
  appears : (id : ℕ) → v id ≡ none → w ≡ update v id (pending, 0) → Step v w
  moves :
      (id : ℕ) (s t : JobStatus) (m n : ℕ)
      → v id ≡ some (s, m)
      → Moves s m t n
      → w ≡ update v id (t, n)
      → Step v w

pub data Steps : View → View → Type 0 where
  done : {v : View} → Steps v v
  step : {u v w : View} → Step u v → Steps v w → Steps u w

pub find_job-push :
    (q : ℕ) (rows : List JobRow) (row : JobRow)
    → any (has_job_id row.job_id) rows ≡ false
    → find_job q (push rows row) ≡ (if q == row.job_id then some row else find_job q rows)
find_job-push q [] row h = ground (arith, ==_iff row.job_id q, ==_iff q row.job_id)
find_job-push q (r ∷ rs) row h = ground (
  arith,
  find_job-push q rs row (ground arith),
  ==_iff r.job_id q,
  ==_iff q row.job_id,
  ==_iff r.job_id row.job_id,
)

pub view-push :
    (rows : List JobRow) (row : JobRow)
    → any (has_job_id row.job_id) rows ≡ false
    → view (push rows row) ≡ update (view rows) row.job_id (row.status, row.attempt_count)
view-push rows row h = fun_ext λ q. elim (Bool-cases (q == row.job_id)) [
  | inl e ↦ ap progress (find_job-push q rows row h) ∙ rw e refl
  | inr e ↦ ap progress (find_job-push q rows row h) ∙ rw e refl
]

module _ (p : JobRow → Bool) (f : JobRow → JobRow) (id : ℕ)
    (own : (x : JobRow) → p x ≡ true → x.job_id ≡ id)
    (keeps : (x : JobRow) → (f x).job_id ≡ x.job_id) where
  pub find_job-replace_first :
      (q : ℕ) (rows : List JobRow) (row : JobRow)
      → IsKeyed rows
      → find_first p rows ≡ some row
      → find_job q (replace_first p f rows) ≡ (if q == id then some (f row) else find_job q rows)
  find_job-replace_first q [] row k h = absurd (cc)
  find_job-replace_first q (r ∷ rs) row (unique, k) h = elim (Bool-cases (p r)) [
    | inl e ↦
        let same_row : r ≡ row = ground arith in
        let key = own r e in
        rw e (
          ground
            (arith, keeps r, ap f same_row, ==_iff (f r).job_id q, ==_iff r.job_id q, ==_iff q id))
    | inr e ↦
        let found : find_first p rs ≡ some row = rw e at h in
        let key = own row (find_first-any p rs row found) in
        let there = any-Memᴰ (has_job_id row.job_id) rs row (find_first-Memᴰ p rs row found) in
        rw e (
          ground (
            arith,
            find_job-replace_first q rs row k found,
            rw key at there,
            ==_iff row.job_id row.job_id,
            ==_iff r.job_id q,
            ==_iff r.job_id id,
            ==_iff id id,
            ==_iff q id,
          ))
  ]

  pub view-replace_first :
      (rows : List JobRow) (row : JobRow)
      → IsKeyed rows
      → find_first p rows ≡ some row
      → view (replace_first p f rows)
        ≡ update (view rows) id ((f row).status, (f row).attempt_count)
  view-replace_first rows row k h = fun_ext λ q. elim (Bool-cases (q == id)) [
    | inl e ↦ ap progress (find_job-replace_first q rows row k h) ∙ rw e refl
    | inr e ↦ ap progress (find_job-replace_first q rows row k h) ∙ rw e refl
  ]

-- A life that starts with no attempt: none while it is PENDING, and just one from then on.
abbrev pub IsOneAttempt : Option (JobStatus × ℕ) → Type 0
IsOneAttempt none = Unit
IsOneAttempt (some (s, n)) = ((s ≡ pending) × (n ≡ 0)) ⊎ (¬ (s ≡ pending) × (n ≡ 1))
