-- ===== src/Domain/Policy/Paths/Normal.antt =====
-- The shape of what `normalizePath` of packages/domain/src/policies/file-scope-policy.ts returns.
use copilot_factory.Prelude.{
  Bool, true, false, ◌&&◌, ◌==◌, [], ◌∷◌, ◌≡◌, inl, inr, refl, Bool-cases,
}
use copilot_factory.Domain.Policy.Paths.{
  Text, slash, dot, trim, collapse, collapse_after, strip_dot_slash, strip_slash, normalize_path,
}

-- No slash follows a slash, nor stands first if `after` says that one came before.
abbrev pub IsClean : Bool → Text → Type 0
IsClean after [] = Unit
IsClean after (c ∷ cs) = ((after && c == slash) ≡ false) × IsClean (c == slash) cs

IsClean-weaken : (after : Bool) (t : Text) → IsClean after t → IsClean false t
IsClean-weaken after [] h = tt
IsClean-weaken after (c ∷ cs) (a, h) = (refl, h)

collapse_after-IsClean : (after : Bool) (t : Text) → IsClean after (collapse_after after t)
collapse_after-IsClean after [] = tt
collapse_after-IsClean true (c ∷ cs) = elim (Bool-cases (c == slash)) [
  | inl e ↦ rw (collapse_after, e) (collapse_after-IsClean true cs)
  | inr e ↦ rw (collapse_after, e) (e, rw e (collapse_after-IsClean false cs))
]
collapse_after-IsClean false (c ∷ cs) = elim (Bool-cases (c == slash)) [
  | inl e ↦ rw (collapse_after, e) (refl, rw e (collapse_after-IsClean true cs))
  | inr e ↦ rw (collapse_after, e) (refl, rw e (collapse_after-IsClean false cs))
]

strip_dot_slash-IsClean : (t : Text) → IsClean false t → IsClean false (strip_dot_slash t)
strip_dot_slash-IsClean [] h = tt
strip_dot_slash-IsClean (a ∷ []) h = h
strip_dot_slash-IsClean (a ∷ b ∷ cs) (p, (q, h)) = elim (Bool-cases (a == dot && b == slash)) [
  | inl e ↦ rw (strip_dot_slash, e) (strip_dot_slash-IsClean cs (IsClean-weaken (b == slash) cs h))
  | inr e ↦ rw (strip_dot_slash, e) (p, (q, h))
]

strip_slash-IsClean : (t : Text) → IsClean false t → IsClean true (strip_slash t)
strip_slash-IsClean [] h = tt
strip_slash-IsClean (c ∷ cs) (p, h) = elim (Bool-cases (c == slash)) [
  | inl e ↦ rw (strip_slash, e) (strip_slash-IsClean cs (IsClean-weaken (c == slash) cs h))
  | inr e ↦ rw (strip_slash, e) (e, h)
]

-- A normalized path has no slash in front and no two slashes in a row, whatever was given.
pub normalize_path-IsClean : (raw_path : Text) → IsClean true (normalize_path raw_path)
unfolding normalize_path
normalize_path-IsClean raw_path = strip_slash-IsClean (strip_dot_slash (collapse (trim raw_path))) (
    strip_dot_slash-IsClean (collapse (trim raw_path))
      (collapse_after-IsClean false (trim raw_path)))
