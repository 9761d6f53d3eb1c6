-- ===== src/Prelude/Lists.antt =====
-- Lists measured by native numbers, under the library's names, and Boolean tests over lists.
use Prim.Native.Nat.{ℕ, zero, suc, ◌+◌}
use mathlib.Core.Path.{◌≡◌, refl}
use mathlib.Core.Bool.{Bool, true, false, ◌&&◌, ◌||◌}
use mathlib.Core.List.{List, [], ◌∷◌, ◌++◌}
use mathlib.Core.Option.{Option, none, some}
use mathlib.Core.Logic.{inl, inr}
use copilot_factory.Prelude.Tests.{if◌then◌else◌, Bool-cases}
use native.Mathlib.Omega.{arith}

abbrev pub cons_if {ℓ} : {A : Type ℓ} → Bool → A → List A → List A
cons_if true x xs = x ∷ xs
cons_if false x xs = xs

module _ {ℓ} {A : Type ℓ} where
  abbrev pub length : List A → ℕ
  length [] = 0
  length (x ∷ xs) = suc (length xs)

  pub length-append : (xs ys : List A) → length (xs ++ ys) ≡ length xs + length ys
  length-append [] ys = omega arith
  length-append (x ∷ xs) ys = omega (arith, length-append xs ys)

  abbrev pub get_elem? : List A → ℕ → Option A
  get_elem? [] i = none
  get_elem? (x ∷ xs) zero = some x
  get_elem? (x ∷ xs) (suc i) = get_elem? xs i

  -- `xs.push(x)`.
  abbrev pub push : List A → A → List A
  push xs x = xs ++ x ∷ []

  -- `xs.filter(p)` by a Boolean test.
  abbrev pub filterb : (A → Bool) → List A → List A
  filterb p [] = []
  filterb p (x ∷ xs) = cons_if (p x) x (filterb p xs)

  -- `xs.some(p)`.
  abbrev pub any : (A → Bool) → List A → Bool
  any p [] = false
  any p (x ∷ xs) = p x || any p xs

  -- `xs.every(p)`.
  abbrev pub all : (A → Bool) → List A → Bool
  all p [] = true
  all p (x ∷ xs) = p x && all p xs

module _ {ℓ} {A : Type ℓ} (p q : A → Bool) where
  pub all-weaken :
      (xs : List A) → ((x : A) → p x ≡ true → q x ≡ true) → all p xs ≡ true → all q xs ≡ true
  all-weaken [] h e = refl
  all-weaken (x ∷ xs) h e = ground (arith, h x, all-weaken xs h)

  -- A filter keeps what holds of every element, and its elements pass the test.
  pub all-filterb : (xs : List A) → all q xs ≡ true → all q (filterb p xs) ≡ true
  all-filterb [] e = refl
  all-filterb (x ∷ xs) e = ground (arith, all-filterb xs)

module _ {ℓ} {A : Type ℓ} (p : A → Bool) where
  -- `xs.find(p)`, and `SELECT … WHERE p` by `get()`.
  abbrev pub find_first : List A → Option A
  find_first [] = none
  find_first (x ∷ xs) = if p x then some x else find_first xs

  -- `UPDATE … SET … WHERE p` for a condition that at most one row meets.
  abbrev pub replace_first : (A → A) → List A → List A
  replace_first f [] = []
  replace_first f (x ∷ xs) = if p x then f x ∷ xs else x ∷ replace_first f xs

  pub find_first-any : (xs : List A) (x : A) → find_first xs ≡ some x → p x ≡ true
  find_first-any [] x h = absurd (cc)
  find_first-any (y ∷ ys) x h = elim (Bool-cases (p y)) [
    | inl e ↦ ground arith
    | inr e ↦ find_first-any ys x (ground arith)
  ]
