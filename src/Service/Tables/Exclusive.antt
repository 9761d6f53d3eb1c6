-- ===== src/Service/Tables/Exclusive.antt =====
-- The table of leases: lease identifiers are unique, and no task has two active leases.
use copilot_factory.Prelude.{
  ℕ, Bool, true, false, ◌&&◌, ◌==◌, ==_iff, some, List, [], ◌∷◌, any, push, find_first,
  replace_first, ◌≡◌, inl, inr, refl, arith, Bool-cases,
}
use copilot_factory.Service.Tables.{LeaseRow, has_lease_id, is_active, is_active_for}
use copilot_factory.Service.Tables.Rows.{any-push, any-replace_first}

abbrev pub IsExclusive : List LeaseRow → Type 0
IsExclusive [] = Unit
IsExclusive (row ∷ rows) =
    (any (has_lease_id row.lease_id) rows ≡ false)
    × ((is_active row.status && any (is_active_for row.task_id) rows) ≡ false)
    × IsExclusive rows

pub IsExclusive-push :
    (rows : List LeaseRow) (row : LeaseRow)
    → any (has_lease_id row.lease_id) rows ≡ false
    → any (is_active_for row.task_id) rows ≡ false
    → IsExclusive rows
    → IsExclusive (push rows row)
IsExclusive-push [] row a b h = (refl, ground arith, tt)
IsExclusive-push (r ∷ rs) row a b (unique, free, h) = (
  ground (
    arith,
    any-push (has_lease_id r.lease_id) rs row,
    ==_iff row.lease_id r.lease_id,
    ==_iff r.lease_id row.lease_id,
  ),
  ground (
    arith,
    any-push (is_active_for r.task_id) rs row,
    ==_iff row.task_id r.task_id,
    ==_iff r.task_id row.task_id,
  ),
  IsExclusive-push rs row (ground arith) (ground arith) h,
)

-- A change of a row that keeps whose lease it is, and does not bring it back to life.
pub record Keeps (f : LeaseRow → LeaseRow) (row : LeaseRow) : Type 0 where
  pub keeps_lease : (f row).lease_id ≡ row.lease_id
  pub keeps_task : (f row).task_id ≡ row.task_id
  pub keeps_end : is_active (f row).status ≡ true → is_active row.status ≡ true

any-replaced :
    (id : ℕ) (f : LeaseRow → LeaseRow) (rows : List LeaseRow) (row : LeaseRow) (q : LeaseRow → Bool)
    → find_first (has_lease_id id) rows ≡ some row
    → (q (f row) ≡ true → q row ≡ true)
    → any q rows ≡ false
    → any q (replace_first (has_lease_id id) f rows) ≡ false
any-replaced id f rows row q h k e =
    elim (Bool-cases (any q (replace_first (has_lease_id id) f rows))) [
      | inl a ↦ absurd (ground (arith, any-replace_first (has_lease_id id) q f rows row h k a))
      | inr a ↦ a
    ]

pub IsExclusive-replace_first :
    (id : ℕ) (f : LeaseRow → LeaseRow) (rows : List LeaseRow) (row : LeaseRow)
    → find_first (has_lease_id id) rows ≡ some row
    → Keeps f row
    → IsExclusive rows
    → IsExclusive (replace_first (has_lease_id id) f rows)
IsExclusive-replace_first id f [] row h k e = tt
IsExclusive-replace_first id f (r ∷ rs) row h k (unique, free, e) =
    elim (Bool-cases (r.lease_id == id)) [
      | inl here ↦
          let same_row : r ≡ row = ground arith in
          let m : Keeps f r = rw same_row k in
          rw here (rw m.keeps_lease (rw m.keeps_task (unique, ground (arith, m.keeps_end), e)))
      | inr there ↦
          let found : find_first (has_lease_id id) rs ≡ some row = ground arith in
          rw there (
            any-replaced id f rs row (has_lease_id r.lease_id) found (λ a. rw k.keeps_lease at a)
                unique,
            others found,
            IsExclusive-replace_first id f rs row found k e,
          )
    ]
  where
    kept : is_active_for r.task_id (f row) ≡ true → is_active_for r.task_id row ≡ true
    kept a = ground (arith, rw k.keeps_task at a, k.keeps_end)

    others :
        find_first (has_lease_id id) rs ≡ some row
        → (is_active r.status
            && any (is_active_for r.task_id) (replace_first (has_lease_id id) f rs))
          ≡ false
    others found = elim (Bool-cases (is_active r.status)) [
      | inl a ↦ ground (arith, any-replaced id f rs row (is_active_for r.task_id) found kept)
      | inr a ↦ rw a refl
    ]
