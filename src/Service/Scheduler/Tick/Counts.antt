-- ===== src/Service/Scheduler/Tick/Counts.antt =====
-- How many rows pass a test, for packages/application/src/services/scheduler-tick.service.ts.
use copilot_factory.Prelude.{
  ◌+◌, ◌≤◌, Bool, true, false, some, List, [], ◌∷◌, push, length, filterb, find_first,
  replace_first, if◌then◌else◌, ◌≡◌, inl, inr, ap, arith, Bool-cases, Memᴰ, not-nil, filterb-Memᴰ,
}

module _ {ℓ} {A : Type ℓ} (p : A → Bool) where
  pub count-push :
      (xs : List A) (x : A)
      → length (filterb p (push xs x)) ≡ length (filterb p xs) + (if p x then 1 else 0)
  count-push [] x = ground arith
  count-push (y ∷ ys) x = ground (arith, count-push ys x)

  pub count-zero : (xs : List A) (x : A) → length (filterb p xs) ≡ 0 → Memᴰ x xs → p x ≡ false
  count-zero xs x z m = elim (Bool-cases (p x)) [
    | inl e ↦ absurd (empty (filterb p xs) z (filterb-Memᴰ p xs x m e))
    | inr e ↦ e
  ]
    where
      empty : (ys : List A) → length ys ≡ 0 → ¬ Memᴰ x ys
      empty [] z m = not-nil m
      empty (y ∷ ys) z m = absurd (omega arith)

  pub count-weaken :
      (q : A → Bool) (xs : List A)
      → ((x : A) → p x ≡ true → q x ≡ true)
      → length (filterb p xs) ≤ length (filterb q xs)
  count-weaken q [] k = omega arith
  count-weaken q (y ∷ ys) k = ground (arith, count-weaken q ys k, k y)

  pub count-replace_first :
      (q : A → Bool) (f : A → A) (xs : List A) (x : A)
      → find_first q xs ≡ some x
      → length (filterb p (replace_first q f xs)) + (if p x then 1 else 0)
        ≡ length (filterb p xs) + (if p (f x) then 1 else 0)
  count-replace_first q f [] x h = absurd (cc)
  count-replace_first q f (y ∷ ys) x h = elim (Bool-cases (q y)) [
    | inl e ↦
        let same_row : y ≡ x = ground arith in
        ground (arith, ap p same_row, ap (λ z. p (f z)) same_row)
    | inr e ↦ ground (arith, count-replace_first q f ys x (ground arith))
  ]

  pub find_first-push :
      (xs : List A) (x y : A) → find_first p xs ≡ some x → find_first p (push xs y) ≡ some x
  find_first-push [] x y h = absurd (cc)
  find_first-push (z ∷ zs) x y h = elim (Bool-cases (p z)) [
    | inl e ↦ rw e (rw e at h)
    | inr e ↦ rw e (find_first-push zs x y (rw e at h))
  ]
