-- ===== src/Domain/Policy/Validation/Commands.antt =====
-- The checks without a command in packages/domain/src/policies/validation-policy.ts.
use text.Mathlib.Text.{◌==◌ as str_eq}
use text.Mathlib.TextEquality.{eq_iff}
use copilot_factory.Prelude.{
  true, false, not, String, List, [], ◌∷◌, ◌++◌, any, ◌≡◌, ◌↔◌, ◌⊎◌, inl, inr, refl, ap, arith,
  Bool-cases, Memᴰ, not-nil, cases_cons, Memᴰ-filterb, filterb-Memᴰ,
}
use copilot_factory.Domain.Policy.Validation.{
  ValidationProfile, is_inherited, get_all_checks, is_in, get_missing_commands,
}

any_key_iff :
    (check : String) (commands : List (String × String))
    → (any (λ entry. str_eq check entry.0) commands ≡ true)
      ↔ ((command : String) × Memᴰ (check, command) commands)
any_key_iff check [] = (λ h. absurd (cc), λ (c, m). absurd (not-nil m))
any_key_iff check ((key, x) ∷ entries) = (
  λ h. elim (Bool-cases (str_eq check key)) [
    | inl e ↦ (x, Memᴰ.head (ap (λ k. (k, x)) ((eq_iff check key).0 e)))
    | inr e ↦ let (c, m) = (any_key_iff check entries).0 (ground arith) in (c, Memᴰ.tail m)
  ],
  λ (c, m). elim (cases_cons m) [
    | inl s ↦ ground (arith, (eq_iff check key).1 (ap (λ y. y.0) s))
    | inr n ↦ ground (arith, (any_key_iff check entries).1 (c, n))
  ],
)

Memᴰ-append :
    (check : String) (xs ys : List String) → Memᴰ check (xs ++ ys) ↔ (Memᴰ check xs ⊎ Memᴰ check ys)
Memᴰ-append check [] ys = (λ m. inr m, λ m. elim m [ inl k ↦ absurd (not-nil k) | inr k ↦ k ])
Memᴰ-append check (x ∷ xs) ys = (
  λ m. elim (cases_cons m) [
    | inl e ↦ inl (Memᴰ.head e)
    | inr n ↦ elim ((Memᴰ-append check xs ys).0 n) [ inl k ↦ inl (Memᴰ.tail k) | inr k ↦ inr k ]
  ],
  λ m. elim m [
    | inl k ↦ elim (cases_cons k) [
      | inl e ↦ Memᴰ.head e
      | inr n ↦ Memᴰ.tail ((Memᴰ-append check xs ys).1 (inl n))
    ]
    | inr k ↦ Memᴰ.tail ((Memᴰ-append check xs ys).1 (inr k))
  ],
)

in_cases :
    (check : String) (commands : List (String × String))
    → not (is_in check commands) ≡ true
    → (any (λ entry. str_eq check entry.0) commands ≡ false) × (is_inherited check ≡ false)
in_cases check commands h = elim (Bool-cases (any (λ entry. str_eq check entry.0) commands)) [
  | inl a ↦ absurd (let h' = rw a at h in cc)
  | inr a ↦ elim (Bool-cases (is_inherited check)) [
    | inl i ↦ absurd (let h' = rw (a, i) at h in cc)
    | inr i ↦ (a, i)
  ]
]

-- A check of a profile is reported exactly when it is required or optional, the profile has no command
-- for it, and no object inherits a property of its name.
pub get_missing_commands_iff :
    (profile : ValidationProfile) (check : String)
    → Memᴰ check (get_missing_commands profile) ↔ (
        (Memᴰ check profile.required_checks ⊎ Memᴰ check profile.optional_checks)
        × ((command : String) → ¬ Memᴰ (check, command) profile.commands)
        × (is_inherited check ≡ false))
unfolding get_missing_commands
get_missing_commands_iff profile check = (
  λ m.
      let (l, t) =
        Memᴰ-filterb (λ check. not (is_in check profile.commands)) (get_all_checks profile) check
          m in
      let (none_there, i) = in_cases check profile.commands t in
      (
        (Memᴰ-append check profile.required_checks profile.optional_checks).0 l,
        λ command k. let a = (any_key_iff check profile.commands).1 (command, k) in absurd (cc),
        i,
      ),
  λ (l, n, i).
      filterb-Memᴰ (λ check. not (is_in check profile.commands)) (get_all_checks profile) check
        ((Memᴰ-append check profile.required_checks profile.optional_checks).1 l)
        (elim (Bool-cases (any (λ entry. str_eq check entry.0) profile.commands)) [
          | inl a ↦ let (c, m) = (any_key_iff check profile.commands).0 a in absurd (n c m)
          | inr a ↦ rw (a, i) refl
        ]),
)
