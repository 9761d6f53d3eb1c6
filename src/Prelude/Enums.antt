-- ===== src/Prelude/Enums.antt =====
-- String enumerations of the source: the list of their values, compared by `===`, which here
-- compares positions in that list.
use Prim.Native.Nat.{ℕ}
use mathlib.Core.Path.{◌≡◌, refl, ap}
use mathlib.Core.Logic.{◌↔◌, ◌⊎◌, inl, inr}
use mathlib.Core.Bool.{Bool, true, false}
use mathlib.Core.Option.{some}
use mathlib.Core.List.{List}
use copilot_factory.Prelude.Tests.{◌==◌, ==_iff, Bool-cases}
use copilot_factory.Prelude.Lists.{get_elem?}

pub record Enum {ℓ} (A : Type ℓ) : Type ℓ where
  pub values : List A
  pub index : A → ℕ
  pub value-index : (a : A) → get_elem? values (index a) ≡ some a

module _ {ℓ} {A : Type ℓ} ⦃e : Enum A⦄ where
  -- `a === b`.
  abbrev pub same : A → A → Bool
  same a b = e.index a == e.index b

  index_injective : (a b : A) → e.index a ≡ e.index b → a ≡ b
  index_injective a b p = cc (ap (get_elem? e.values) p, e.value-index a, e.value-index b)

  pub same_iff : (a b : A) → (same a b ≡ true) ↔ (a ≡ b)
  same_iff a b = (
    λ h. index_injective a b ((==_iff (e.index a) (e.index b)).0 h),
    λ p. (==_iff (e.index a) (e.index b)).1 (ap e.index p),
  )

  pub same_self : (a : A) → same a a ≡ true
  same_self a = (same_iff a a).1 refl

  pub same-cases : (a b : A) → (a ≡ b) ⊎ (same a b ≡ false)
  same-cases a b = elim (Bool-cases (same a b)) [ inl h ↦ inl ((same_iff a b).0 h) | inr h ↦ inr h ]
