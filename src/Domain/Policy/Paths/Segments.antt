-- ===== src/Domain/Policy/Paths/Segments.antt =====
-- The prefix test of packages/domain/src/policies/file-scope-policy.ts on texts, next to one on the
-- segments between slashes.
use copilot_factory.Prelude.{
  ℕ, Bool, true, false, ◌&&◌, ◌==◌, ==_iff, List, [], ◌∷◌, ◌++◌, if◌then◌else◌, ◌≡◌, inl, inr, refl,
  ap, arith, Bool-cases,
}
use copilot_factory.Domain.Policy.Paths.{
  Text, slash, starts_with, ends_with_slash, with_slash, normalize_path, normalize_root,
}

abbrev pub cons_head : ℕ → List Text → List Text
cons_head c [] = (c ∷ []) ∷ []
cons_head c (s ∷ ss) = (c ∷ s) ∷ ss

-- The segments of a path: the texts between its slashes.
abbrev pub segments : Text → List Text
segments [] = [] ∷ []
segments (c ∷ cs) = if c == slash then [] ∷ segments cs else cons_head c (segments cs)

abbrev pub same_text : Text → Text → Bool
same_text [] [] = true
same_text (a ∷ as') (b ∷ bs) = a == b && same_text as' bs
same_text _ _ = false

-- Some segments are the first ones of a path, and more follow.
abbrev pub is_above : List Text → List Text → Bool
is_above ss [] = false
is_above [] (t ∷ ts) = true
is_above (s ∷ ss) (t ∷ ts) = same_text s t && is_above ss ts

segments-cons : (t : Text) → (s : Text) × (ss : List Text) × (segments t ≡ s ∷ ss)
segments-cons [] = ([], [], refl)
segments-cons (c ∷ cs) = elim (Bool-cases (c == slash)) [
  | inl e ↦ ([], segments cs, rw (segments, e) refl)
  | inr e ↦ let (s, ss, h) = segments-cons cs in (c ∷ s, ss, rw (segments, e, h) refl)
]

is_above-cons_head :
    (a c : ℕ) (xs ys : List Text) (x y : Text)
    → is_above (cons_head a (x ∷ xs)) (cons_head c (y ∷ ys))
      ≡ (a == c && is_above (x ∷ xs) (y ∷ ys))
is_above-cons_head a c xs ys x y = ground arith

pub starts_with-is_above :
    (root path : Text)
    → starts_with (root ++ slash ∷ []) path ≡ is_above (segments root) (segments path)
starts_with-is_above [] [] = refl
starts_with-is_above [] (c ∷ cs) = elim (Bool-cases (c == slash)) [
  | inl e ↦
      let (s, ss, h) = segments-cons cs in
      rw (segments, e, h) (ground (arith, ==_iff c slash, ==_iff slash c))
  | inr e ↦
      let (s, ss, h) = segments-cons cs in
      rw (segments, e, h) (ground (arith, ==_iff c slash, ==_iff slash c))
]
starts_with-is_above (a ∷ as') [] = elim (Bool-cases (a == slash)) [
  | inl e ↦ rw (segments, e) refl
  | inr e ↦ let (s, ss, h) = segments-cons as' in rw (segments, e, h) refl
]
starts_with-is_above (a ∷ as') (c ∷ cs) =
    let ih = starts_with-is_above as' cs in
    let (s, ss, h) = segments-cons as' in
    let (t, ts, k) = segments-cons cs in
    elim (Bool-cases (a == slash)) [
      | inl e ↦ elim (Bool-cases (c == slash)) [
        | inl f ↦ rw (segments, e, f) (ground (arith, ==_iff a c, ==_iff a slash, ==_iff c slash))
        | inr f ↦
            rw (segments, e, f, k) (ground (arith, ==_iff a c, ==_iff a slash, ==_iff c slash))
      ]
      | inr e ↦ elim (Bool-cases (c == slash)) [
        | inl f ↦
            rw (segments, e, f, h) (ground (arith, ==_iff a c, ==_iff a slash, ==_iff c slash))
        | inr f ↦ let ih' = rw (h, k) at ih in rw (segments, e, f, h, k) (ground (arith))
      ]
    ]

-- A directory without the slash at its end.
abbrev pub without_slash : Text → Text
without_slash [] = []
without_slash (c ∷ []) = if c == slash then [] else c ∷ []
without_slash (c ∷ d ∷ cs) = c ∷ without_slash (d ∷ cs)

with_slash-without_slash :
    (c : ℕ) (cs : Text) → with_slash (c ∷ cs) ≡ without_slash (c ∷ cs) ++ slash ∷ []
with_slash-without_slash c [] = elim (Bool-cases (c == slash)) [
  | inl e ↦
      rw (with_slash, ends_with_slash, without_slash, e) (ap (λ x. x ∷ []) ((==_iff c slash).0 e))
  | inr e ↦ rw (with_slash, ends_with_slash, without_slash, e) refl
]
with_slash-without_slash c (d ∷ cs) =
    let ih = with_slash-without_slash d cs in
    elim (Bool-cases (ends_with_slash (d ∷ cs))) [
      | inl e ↦ rw (with_slash, ends_with_slash, e) (ap (◌∷◌ c) (rw (with_slash, e) at ih))
      | inr e ↦ rw (with_slash, ends_with_slash, e) (ap (◌∷◌ c) (rw (with_slash, e) at ih))
    ]

abbrev pub root_segments : Text → List Text
root_segments root = segments (without_slash (normalize_path root))

-- For a root that does not normalize to the empty text: a path starts with the normalized root exactly when
-- the segments of the root are the first segments of the path and more follow. So `app` covers what is in
-- `app/`, and neither `application/` nor `app` itself.
pub normalize_root-segments :
    (root path : Text) (c : ℕ) (cs : Text)
    → normalize_path root ≡ c ∷ cs
    → starts_with (normalize_root root) path ≡ is_above (root_segments root) (segments path)
unfolding normalize_root
normalize_root-segments root path c cs h =
    rw (normalize_root, h, with_slash-without_slash c cs)
      (starts_with-is_above (without_slash (c ∷ cs)) path)
