-- ===== src/Prelude/Sorting.antt =====
-- `xs.sort(compare)`, which is stable, and the rows of a list as members of it.
use Prim.Native.Nat.{ℕ, zero, suc}
use mathlib.Core.Path.{◌≡◌, ap}
use mathlib.Core.Bool.{Bool, true, false}
use mathlib.Core.List.{List, [], ◌∷◌, Memᴰ}
use mathlib.Core.List.Memᴰ.{not-nil, cases_cons}
use mathlib.Core.Option.{some}
use mathlib.Core.Logic.{◌⊎◌, inl, inr}
use copilot_factory.Prelude.Tests.{if◌then◌else◌, Bool-cases}
use copilot_factory.Prelude.Lists.{filterb, any, find_first}
use native.Mathlib.Omega.{arith}

module _ {ℓ} {A : Type ℓ} where
  -- `xs.slice(0, n)`.
  abbrev pub take : ℕ → List A → List A
  take (suc n) (x ∷ xs) = x ∷ take n xs
  take _ _ = []

  pub Memᴰ-take : (n : ℕ) (xs : List A) (y : A) → Memᴰ y (take n xs) → Memᴰ y xs
  Memᴰ-take zero xs y m = absurd (not-nil m)
  Memᴰ-take (suc n) [] y m = absurd (not-nil m)
  Memᴰ-take (suc n) (x ∷ xs) y m = elim (cases_cons m) [
    | inl e ↦ Memᴰ.head e
    | inr k ↦ Memᴰ.tail (Memᴰ-take n xs y k)
  ]

  pub Memᴰ-filterb :
      (p : A → Bool) (xs : List A) (y : A) → Memᴰ y (filterb p xs) → Memᴰ y xs × (p y ≡ true)
  Memᴰ-filterb p [] y m = absurd (not-nil m)
  Memᴰ-filterb p (x ∷ xs) y m = elim (Bool-cases (p x)) [
    | inl e ↦ elim (cases_cons (rw e at m)) [
      | inl s ↦ (Memᴰ.head s, cc (ap p s))
      | inr n ↦ let (n', t) = Memᴰ-filterb p xs y n in (Memᴰ.tail n', t)
    ]
    | inr e ↦ let (n, t) = Memᴰ-filterb p xs y (rw e at m) in (Memᴰ.tail n, t)
  ]

  pub filterb-Memᴰ :
      (p : A → Bool) (xs : List A) (y : A) → Memᴰ y xs → p y ≡ true → Memᴰ y (filterb p xs)
  filterb-Memᴰ p [] y m t = absurd (not-nil m)
  filterb-Memᴰ p (x ∷ xs) y m t = elim (Bool-cases (p x)) [
    | inl e ↦ elim (cases_cons m) [
      | inl s ↦ rw e (Memᴰ.head s)
      | inr n ↦ rw e (Memᴰ.tail (filterb-Memᴰ p xs y n t))
    ]
    | inr e ↦ elim (cases_cons m) [
      | inl s ↦ absurd (ground (arith, ap p s))
      | inr n ↦ rw e (filterb-Memᴰ p xs y n t)
    ]
  ]

  pub any-Memᴰ : (p : A → Bool) (xs : List A) (y : A) → Memᴰ y xs → p y ≡ true → any p xs ≡ true
  any-Memᴰ p [] y m t = absurd (not-nil m)
  any-Memᴰ p (x ∷ xs) y m t = elim (cases_cons m) [
    | inl s ↦ ground (arith, ap p s)
    | inr n ↦ ground (arith, any-Memᴰ p xs y n t)
  ]

  pub find_first-Memᴰ : (p : A → Bool) (xs : List A) (y : A) → find_first p xs ≡ some y → Memᴰ y xs
  find_first-Memᴰ p [] y h = absurd (cc)
  find_first-Memᴰ p (x ∷ xs) y h = elim (Bool-cases (p x)) [
    | inl e ↦ Memᴰ.head (ground arith)
    | inr e ↦ Memᴰ.tail (find_first-Memᴰ p xs y (rw e at h))
  ]

-- Sorting by a comparison, `le x y` for `compare(x, y) <= 0`; equal elements keep their order.
module _ {ℓ} {A : Type ℓ} (le : A → A → Bool) where
  abbrev pub insert_by : A → List A → List A
  insert_by x [] = x ∷ []
  insert_by x (y ∷ ys) = if le x y then x ∷ y ∷ ys else y ∷ insert_by x ys

  abbrev pub sort_by : List A → List A
  sort_by [] = []
  sort_by (x ∷ xs) = insert_by x (sort_by xs)

  -- No later element goes before an earlier one.
  abbrev pub IsSorted : List A → Type ℓ
  IsSorted [] = Unit
  IsSorted (x ∷ xs) = ((y : A) → Memᴰ y xs → le x y ≡ true) × IsSorted xs

  Memᴰ-insert_by : (x : A) (xs : List A) (y : A) → Memᴰ y (insert_by x xs) → (y ≡ x) ⊎ Memᴰ y xs
  Memᴰ-insert_by x [] y m = cases_cons m
  Memᴰ-insert_by x (z ∷ zs) y m = elim (Bool-cases (le x z)) [
    | inl e ↦ cases_cons (rw e at m)
    | inr e ↦ elim (cases_cons (rw e at m)) [
      | inl s ↦ inr (Memᴰ.head s)
      | inr n ↦ elim (Memᴰ-insert_by x zs y n) [ inl s ↦ inl s | inr k ↦ inr (Memᴰ.tail k) ]
    ]
  ]

  insert_by-Memᴰ : (x : A) (xs : List A) (y : A) → (y ≡ x) ⊎ Memᴰ y xs → Memᴰ y (insert_by x xs)
  insert_by-Memᴰ x [] y m = elim m [ inl e ↦ Memᴰ.head e | inr n ↦ Memᴰ.tail n ]
  insert_by-Memᴰ x (z ∷ zs) y m = elim (Bool-cases (le x z)) [
    | inl e ↦ rw e (elim m [ inl s ↦ Memᴰ.head s | inr n ↦ Memᴰ.tail n ])
    | inr e ↦ rw e (elim m [
      | inl s ↦ Memᴰ.tail (insert_by-Memᴰ x zs y (inl s))
      | inr n ↦ elim (cases_cons n) [
        | inl s ↦ Memᴰ.head s
        | inr k ↦ Memᴰ.tail (insert_by-Memᴰ x zs y (inr k))
      ]
    ])
  ]

  pub Memᴰ-sort_by : (xs : List A) (y : A) → Memᴰ y (sort_by xs) → Memᴰ y xs
  Memᴰ-sort_by [] y m = m
  Memᴰ-sort_by (x ∷ xs) y m = elim (Memᴰ-insert_by x (sort_by xs) y m) [
    | inl e ↦ Memᴰ.head e
    | inr n ↦ Memᴰ.tail (Memᴰ-sort_by xs y n)
  ]

  pub sort_by-Memᴰ : (xs : List A) (y : A) → Memᴰ y xs → Memᴰ y (sort_by xs)
  sort_by-Memᴰ [] y m = m
  sort_by-Memᴰ (x ∷ xs) y m = elim (cases_cons m) [
    | inl e ↦ insert_by-Memᴰ x (sort_by xs) y (inl e)
    | inr n ↦ insert_by-Memᴰ x (sort_by xs) y (inr (sort_by-Memᴰ xs y n))
  ]

  module _ (total : (x y : A) → le x y ≡ false → le y x ≡ true)
      (trans : (x y z : A) → le x y ≡ true → le y z ≡ true → le x z ≡ true) where
    insert_by-IsSorted : (x : A) (xs : List A) → IsSorted xs → IsSorted (insert_by x xs)
    insert_by-IsSorted x [] h = (λ y m. absurd (not-nil m), tt)
    insert_by-IsSorted x (z ∷ zs) (below, h) = elim (Bool-cases (le x z)) [
      | inl e ↦ rw e (
        λ y m. elim (cases_cons m) [ inl s ↦ rw s e | inr n ↦ trans x z y e (below y n) ],
        (below, h),
      )
      | inr e ↦ rw e (
        λ y m. elim (Memᴰ-insert_by x zs y m) [ inl s ↦ rw s (total x z e) | inr n ↦ below y n ],
        insert_by-IsSorted x zs h,
      )
    ]

    pub sort_by-IsSorted : (xs : List A) → IsSorted (sort_by xs)
    sort_by-IsSorted [] = tt
    sort_by-IsSorted (x ∷ xs) = insert_by-IsSorted x (sort_by xs) (sort_by-IsSorted xs)
