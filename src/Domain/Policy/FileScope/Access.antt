-- ===== src/Domain/Policy/FileScope/Access.antt =====
-- Which accesses packages/domain/src/policies/file-scope-policy.ts allows.
use copilot_factory.Prelude.{
  Bool, true, false, not, ◌&&◌, ◌||◌, Option, none, some, List, [], ◌∷◌, any, if◌then◌else◌, ◌≡◌,
  inl, inr, refl, sym, arith, Bool-cases, Option-cases,
}
use copilot_factory.Domain.Policy.Paths.{
  Text, normalize_path, normalize_root, starts_with, ends_with_slash, with_slash,
}
use copilot_factory.Domain.Policy.Paths.Segments.{
  is_above, segments, root_segments, normalize_root-segments,
}
use copilot_factory.Domain.Policy.FileScope.{
  FileScopePolicy, FileScopeRootMatch, deny_root, write_root, read_root, outside, is_empty,
  is_under, find_root, Classification, classify_path, judge_read, judge_write, check_read_access,
  check_write_access,
}

-- Whether a path is below one of some roots, by the segments between slashes. A root that normalizes to
-- the empty text has nothing below it.
abbrev pub is_within : Text → List Text → Bool
is_within path =
    any (λ root.
      not (is_empty (normalize_path root)) && is_above (root_segments root) (segments path))

is_empty-with_slash : (t : Text) → is_empty (with_slash t) ≡ is_empty t
is_empty-with_slash [] = refl
is_empty-with_slash (c ∷ cs) = elim (Bool-cases (ends_with_slash (c ∷ cs))) [
  | inl e ↦ rw (with_slash, e) refl
  | inr e ↦ rw (with_slash, e) refl
]

is_empty-normalize_root :
    (root : Text) → is_empty (normalize_root root) ≡ is_empty (normalize_path root)
unfolding normalize_root
is_empty-normalize_root root = is_empty-with_slash (normalize_path root)

is_under-is_above :
    (path root : Text)
    → is_under path root
      ≡ (not (is_empty (normalize_path root)) && is_above (root_segments root) (segments path))
unfolding is_under
is_under-is_above path root = go (normalize_path root) refl
  where
    go :
        (n : Text)
        → normalize_path root ≡ n
        → (not (is_empty (normalize_root root)) && starts_with (normalize_root root) path)
          ≡ (not (is_empty (normalize_path root)) && is_above (root_segments root) (segments path))
    go [] h = rw (is_empty-normalize_root root, h) refl
    go (c ∷ cs) h = rw (is_empty-normalize_root root, normalize_root-segments root path c cs h) refl

is_some : Option Text → Bool
is_some none = false
is_some (some t) = true

find_root-is_within :
    (path : Text) (roots : List Text) → is_some (find_root path roots) ≡ is_within path roots
unfolding is_some
find_root-is_within path [] = refl
find_root-is_within path (root ∷ roots) = elim (Bool-cases (is_under path root)) [
  | inl e ↦ rw (find_root, e, is_within, ← is_under-is_above path root, e) refl
  | inr e ↦
      rw (find_root, e, is_within, ← is_under-is_above path root, e)
        (find_root-is_within path roots)
]

within-none :
    (path : Text) (roots : List Text) → find_root path roots ≡ none → is_within path roots ≡ false
unfolding is_some
within-none path roots h = let e = find_root-is_within path roots in sym (rw h at e)

within-some :
    (path : Text) (roots : List Text) (root : Text)
    → find_root path roots ≡ some root
    → is_within path roots ≡ true
unfolding is_some
within-some path roots root h = let e = find_root-is_within path roots in sym (rw h at e)

-- The category of a path, with its precedence.
abbrev pub category : Text → FileScopePolicy → FileScopeRootMatch
category path policy =
    if is_within path policy.deny_roots
    then deny_root
    else if is_within path policy.write_roots
    then write_root
    else if is_within path policy.read_roots
    then read_root
    else outside

classified :
    (path : Text) (policy : FileScopePolicy)
    → (classify_path path policy).match' ≡ category path policy
unfolding classify_path
classified path policy = elim (Option-cases (find_root path policy.deny_roots)) [
  | inr (root, d) ↦ rw (category, within-some path policy.deny_roots root d, classify_path, d) refl
  | inl d ↦ elim (Option-cases (find_root path policy.write_roots)) [
    | inr (root, w) ↦
        rw
          (
            category,
            within-none path policy.deny_roots d,
            within-some path policy.write_roots root w,
            classify_path,
            d,
            w,
          )
          refl
    | inl w ↦ elim (Option-cases (find_root path policy.read_roots)) [
      | inr (root, r) ↦
          rw
            (
              category,
              within-none path policy.deny_roots d,
              within-none path policy.write_roots w,
              within-some path policy.read_roots root r,
              classify_path,
              d,
              w,
              r,
            )
            refl
      | inl r ↦
          rw
            (
              category,
              within-none path policy.deny_roots d,
              within-none path policy.write_roots w,
              within-none path policy.read_roots r,
              classify_path,
              d,
              w,
              r,
            )
            refl
    ]
  ]
]

abbrev pub may_write_in : FileScopePolicy → FileScopeRootMatch → Bool
may_write_in policy deny_root = false
may_write_in policy write_root = true
may_write_in policy read_root = false
may_write_in policy outside = policy.allow_write_outside_scope

abbrev pub may_read_in : FileScopePolicy → FileScopeRootMatch → Bool
may_read_in policy deny_root = false
may_read_in policy write_root = true
may_read_in policy read_root = true
may_read_in policy outside = policy.allow_read_outside_scope

judge_write-allowed :
    (policy : FileScopePolicy) (path : Text) (c : Classification)
    → (judge_write policy path c).allowed ≡ may_write_in policy c.match'
unfolding judge_write
judge_write-allowed policy path c = go c.match' refl
  where
    go :
        (m : FileScopeRootMatch)
        → c.match' ≡ m
        → (judge_write policy path c).allowed ≡ may_write_in policy c.match'
    go deny_root h = rw (judge_write, h) refl
    go write_root h = rw (judge_write, h) refl
    go read_root h = rw (judge_write, h) refl
    go outside h = rw (judge_write, h) (ground arith)

judge_read-allowed :
    (policy : FileScopePolicy) (path : Text) (c : Classification)
    → (judge_read policy path c).allowed ≡ may_read_in policy c.match'
unfolding judge_read
judge_read-allowed policy path c = go c.match' refl
  where
    go :
        (m : FileScopeRootMatch)
        → c.match' ≡ m
        → (judge_read policy path c).allowed ≡ may_read_in policy c.match'
    go deny_root h = rw (judge_read, h) refl
    go write_root h = rw (judge_read, h) refl
    go read_root h = rw (judge_read, h) refl
    go outside h = rw (judge_read, h) (ground arith)

-- A write is allowed exactly when the normalized path is not empty, below no deny root, and below a write
-- root, or below no root at all while the policy allows writes outside; what is below a root is judged by
-- the segments between slashes.
pub check_write_access-allowed :
    (path : Text) (policy : FileScopePolicy)
    → (check_write_access path policy).allowed ≡ (
        not (is_empty (normalize_path path))
        && may_write_in policy (category (normalize_path path) policy))
unfolding check_write_access
check_write_access-allowed path policy = elim (Bool-cases (is_empty (normalize_path path))) [
  | inl e ↦ rw (check_write_access, e) refl
  | inr e ↦
      let w =
        judge_write-allowed policy (normalize_path path)
          (classify_path (normalize_path path) policy) in
      rw (check_write_access, e, w, classified (normalize_path path) policy) refl
]

-- A read likewise, where a read root serves as well.
pub check_read_access-allowed :
    (path : Text) (policy : FileScopePolicy)
    → (check_read_access path policy).allowed ≡ (
        not (is_empty (normalize_path path))
        && may_read_in policy (category (normalize_path path) policy))
unfolding check_read_access
check_read_access-allowed path policy = elim (Bool-cases (is_empty (normalize_path path))) [
  | inl e ↦ rw (check_read_access, e) refl
  | inr e ↦
      let r =
        judge_read-allowed policy (normalize_path path)
          (classify_path (normalize_path path) policy) in
      rw (check_read_access, e, r, classified (normalize_path path) policy) refl
]

write_readable :
    (policy : FileScopePolicy) (m : FileScopeRootMatch)
    → (policy.allow_write_outside_scope ≡ true → policy.allow_read_outside_scope ≡ true)
    → may_write_in policy m ≡ true
    → may_read_in policy m ≡ true
write_readable policy deny_root h w = w
write_readable policy write_root h w = refl
write_readable policy read_root h w = refl
write_readable policy outside h w = h w

-- Where a file may be written it may be read, unless the policy allows writes outside the roots and no
-- reads there; and below a deny root neither is allowed.
pub check_access-write_readable :
    (path : Text) (policy : FileScopePolicy)
    → (policy.allow_write_outside_scope ≡ true → policy.allow_read_outside_scope ≡ true)
    → ((check_write_access path policy).allowed ≡ true
        → (check_read_access path policy).allowed ≡ true)
      × (is_within (normalize_path path) policy.deny_roots ≡ true
          → ((check_write_access path policy).allowed || (check_read_access path policy).allowed)
            ≡ false)
check_access-write_readable path policy h = (
  λ w.
      let k = write_readable policy (category (normalize_path path) policy) h in
      ground (arith, check_write_access-allowed path policy, check_read_access-allowed path policy),
  λ d.
      rw
        (check_write_access-allowed path policy, check_read_access-allowed path policy, category, d)
        (ground arith),
)
