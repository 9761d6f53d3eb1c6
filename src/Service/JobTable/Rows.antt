-- ===== src/Service/JobTable/Rows.antt =====
-- Rows of the table of jobs: identifiers are unique, and an update changes one row.
use copilot_factory.Prelude.{
  ℕ, Bool, true, false, ==_iff, some, List, [], ◌∷◌, any, push, find_first, replace_first, ◌≡◌, inl,
  inr, refl, ap, arith, Bool-cases, Memᴰ, not-nil, cases_cons, any-Memᴰ, same,
}
use copilot_factory.Domain.Status.Job.{pending, job_status_enum}
use copilot_factory.Service.JobTable.{JobRow, has_job_id, find_job, is_pending_job}
use copilot_factory.Service.Tables.Rows.{any-push}

-- `job_id` is the primary key.
abbrev pub IsKeyed : List JobRow → Type 0
IsKeyed [] = Unit
IsKeyed (row ∷ rows) = (any (has_job_id row.job_id) rows ≡ false) × IsKeyed rows

pub IsKeyed-push :
    (rows : List JobRow) (row : JobRow)
    → any (has_job_id row.job_id) rows ≡ false
    → IsKeyed rows
    → IsKeyed (push rows row)
IsKeyed-push [] row a h = (refl, tt)
IsKeyed-push (r ∷ rs) row a (unique, h) = (
  ground (
    arith,
    any-push (has_job_id r.job_id) rs row,
    ==_iff row.job_id r.job_id,
    ==_iff r.job_id row.job_id,
  ),
  IsKeyed-push rs row (ground arith) h,
)

any-replaced :
    (p : JobRow → Bool) (f : JobRow → JobRow) (id : ℕ) (rows : List JobRow)
    → ((row : JobRow) → (f row).job_id ≡ row.job_id)
    → any (has_job_id id) (replace_first p f rows) ≡ any (has_job_id id) rows
any-replaced p f id [] k = refl
any-replaced p f id (r ∷ rs) k = elim (Bool-cases (p r)) [
  | inl e ↦ rw (e, k r) refl
  | inr e ↦ rw (e, any-replaced p f id rs k) refl
]

pub IsKeyed-replace_first :
    (p : JobRow → Bool) (f : JobRow → JobRow) (rows : List JobRow)
    → ((row : JobRow) → (f row).job_id ≡ row.job_id)
    → IsKeyed rows
    → IsKeyed (replace_first p f rows)
IsKeyed-replace_first p f [] k h = tt
IsKeyed-replace_first p f (r ∷ rs) k (unique, h) = elim (Bool-cases (p r)) [
  | inl e ↦ rw (e, k r) (unique, h)
  | inr e ↦ rw e (rw (any-replaced p f r.job_id rs k) unique, IsKeyed-replace_first p f rs k h)
]

-- The key finds the row that has it.
pub find_job-Memᴰ :
    (rows : List JobRow) (row : JobRow)
    → IsKeyed rows
    → Memᴰ row rows
    → find_job row.job_id rows ≡ some row
find_job-Memᴰ [] row h m = absurd (not-nil m)
find_job-Memᴰ (r ∷ rs) row (unique, h) m = elim (cases_cons m) [
  | inl e ↦ ground (arith, ap (λ x. x.job_id) e, ==_iff r.job_id row.job_id)
  | inr n ↦ ground (
    arith,
    find_job-Memᴰ rs row h n,
    any-Memᴰ (has_job_id row.job_id) rs row n,
    ==_iff row.job_id row.job_id,
    ==_iff r.job_id row.job_id,
  )
]

-- So does the query for a pending row.
pub find_pending-Memᴰ :
    (rows : List JobRow) (row : JobRow)
    → IsKeyed rows
    → Memᴰ row rows
    → same row.status pending ≡ true
    → find_first (is_pending_job row.job_id) rows ≡ some row
find_pending-Memᴰ [] row h m e = absurd (not-nil m)
find_pending-Memᴰ (r ∷ rs) row (unique, h) m e = elim (cases_cons m) [
  | inl s ↦
      ground
        (arith, ap (λ x. x.job_id) s, ap (λ x. same x.status pending) s, ==_iff r.job_id row.job_id)
  | inr n ↦ ground (
    arith,
    find_pending-Memᴰ rs row h n e,
    any-Memᴰ (has_job_id row.job_id) rs row n,
    ==_iff row.job_id row.job_id,
    ==_iff r.job_id row.job_id,
  )
]
