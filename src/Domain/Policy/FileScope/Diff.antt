-- ===== src/Domain/Policy/FileScope/Diff.antt =====
-- The check of a run's diff in packages/domain/src/policies/file-scope-policy.ts.
use copilot_factory.Prelude.{
  true, false, not, List, [], ◌∷◌, map, filterb, ◌≡◌, ◌↔◌, inl, inr, refl, ap, sym, ◌∙◌, arith,
  Bool-cases, Memᴰ, not-nil, Memᴰ-filterb, filterb-Memᴰ,
}
use mathlib.Core.List.Memᴰ as Members
use copilot_factory.Domain.Policy.Paths.{Text}
use copilot_factory.Domain.Policy.FileScope.{
  FileScopePolicy, FileScopeEvaluation, check_write_access, conclude, validate_post_run_diff,
}

abbrev pub evaluate : FileScopePolicy → Text → FileScopeEvaluation
evaluate policy file = check_write_access file policy

conclude-valid_iff :
    (evaluations violations : List FileScopeEvaluation)
    → ((conclude evaluations violations).valid ≡ true) ↔ (violations ≡ [])
unfolding conclude
conclude-valid_iff evaluations [] = (λ h. refl, λ h. refl)
conclude-valid_iff evaluations (v ∷ vs) = (λ h. absurd (cc), λ h. absurd (cc))

conclude-violations :
    (evaluations violations : List FileScopeEvaluation)
    → (conclude evaluations violations).violations ≡ violations
unfolding conclude
conclude-violations evaluations [] = refl
conclude-violations evaluations (v ∷ vs) = refl

filter_empty_iff :
    (es : List FileScopeEvaluation)
    → (filterb (λ e. not e.allowed) es ≡ [])
      ↔ ((e : FileScopeEvaluation) → Memᴰ e es → e.allowed ≡ true)
filter_empty_iff es = (
  λ h e m. elim (Bool-cases e.allowed) [
    | inl a ↦ a
    | inr d ↦ absurd (not-nil (rw h at (filterb-Memᴰ (λ x. not x.allowed) es e m (ground arith))))
  ],
  λ h.
      none_left (filterb (λ e. not e.allowed) es)
        (λ e m. let (k, d) = Memᴰ-filterb (λ x. not x.allowed) es e m in ground (arith, h e k)),
)
  where
    none_left :
        (xs : List FileScopeEvaluation) → ((e : FileScopeEvaluation) → Memᴰ e xs → ⊥) → xs ≡ []
    none_left [] h = refl
    none_left (x ∷ xs) h = absurd (h x (Memᴰ.head refl))

-- A diff is valid exactly when every modified file may be written, and else its violations are just the
-- evaluations of the files that may not.
pub validate_post_run_diff_iff :
    (files : List Text) (policy : FileScopePolicy)
    → (((validate_post_run_diff files policy).valid ≡ true)
        ↔ ((file : Text) → Memᴰ file files → (check_write_access file policy).allowed ≡ true))
      × ((e : FileScopeEvaluation)
          → Memᴰ e (validate_post_run_diff files policy).violations ↔ (
              (file : Text) × Memᴰ file files
              × (check_write_access file policy ≡ e)
              × (e.allowed ≡ false)))
unfolding validate_post_run_diff
validate_post_run_diff_iff files policy =
    let es = map (evaluate policy) files in
    let (valid, back) = conclude-valid_iff es (filterb (λ e. not e.allowed) es) in
    let (every, all_back) = filter_empty_iff es in
    (
      (
        λ h file m. every (valid h) (evaluate policy file) (Members.map (evaluate policy) m),
        λ h. back (
            all_back (λ e m.
              let (file, k, s) = Members.of_map (evaluate policy) files m in
              ap (λ x. x.allowed) (sym s) ∙ h file k)),
      ),
      λ e. (
        λ m.
            let (k, d) =
              Memᴰ-filterb (λ x. not x.allowed) es e
                (rw (conclude-violations es (filterb (λ x. not x.allowed) es)) at m) in
            let (file, l, s) = Members.of_map (evaluate policy) files k in
            (file, l, s, ground arith),
        λ (file, m, s, d). rw (conclude-violations es (filterb (λ x. not x.allowed) es)) (
            filterb-Memᴰ (λ x. not x.allowed) es e
              (Members.cast (sym s) (Members.map (evaluate policy) m)) (ground arith)),
      ),
    )
