-- ===== src/Domain/Policy/Paths.antt =====
-- Paths in packages/domain/src/policies/file-scope-policy.ts: `normalizePath`, `normalizeRoot` and
-- `startsWith`, over texts as lists of their code units.
pub mod Normal
pub mod Segments
use Prim.Native.Char.{code}
use Prim.Native.String.{String}
use mathlib.Core.List.{reverse}
use copilot_factory.Prelude.{
  ℕ, Bool, true, false, ◌&&◌, ◌||◌, ◌==◌, leb, any, List, [], ◌∷◌, ◌++◌, if◌then◌else◌,
}

abbrev pub Text : Type 0
Text = List ℕ

-- The code units of a literal.
abbrev pub codes : String → Text
codes String.[] = []
codes (String.◌∷◌ c s) = code c ∷ codes s

abbrev pub slash : ℕ
slash = 47

abbrev pub dot : ℕ
dot = 46

-- What `trim` removes: the white space and line terminators of the language's standard.
unfoldable pub is_space : ℕ → Bool
is_space c =
    any (λ s. c == s)
      (9 ∷ 10 ∷ 11 ∷ 12 ∷ 13 ∷ 32 ∷ 160 ∷ 5760 ∷ 8232 ∷ 8233 ∷ 8239 ∷ 8287 ∷ 12288 ∷ 65279 ∷ [])
    || (leb 8192 c && leb c 8202)

abbrev pub trim_start : Text → Text
trim_start [] = []
trim_start (c ∷ cs) = if is_space c then trim_start cs else c ∷ cs

unfoldable pub trim : Text → Text
trim t = reverse (trim_start (reverse (trim_start t)))

-- `replace(/\/+/g, "/")`; the flag says whether the last unit was a slash.
abbrev pub collapse_after : Bool → Text → Text
collapse_after after [] = []
collapse_after after (c ∷ cs) = elim (c == slash) [
  | true ↦ elim after [ true ↦ collapse_after true cs | false ↦ c ∷ collapse_after true cs ]
  | false ↦ c ∷ collapse_after false cs
]

abbrev pub collapse : Text → Text
collapse = collapse_after false

-- `while (p.startsWith("./")) p = p.slice(2)`.
abbrev pub strip_dot_slash : Text → Text
strip_dot_slash (a ∷ b ∷ cs) = if a == dot && b == slash then strip_dot_slash cs else a ∷ b ∷ cs
strip_dot_slash t = t

-- `while (p.startsWith("/")) p = p.slice(1)`.
abbrev pub strip_slash : Text → Text
strip_slash [] = []
strip_slash (c ∷ cs) = if c == slash then strip_slash cs else c ∷ cs

unfoldable pub normalize_path : Text → Text
normalize_path raw_path = strip_slash (strip_dot_slash (collapse (trim raw_path)))

abbrev pub starts_with : Text → Text → Bool
starts_with [] t = true
starts_with (a ∷ as') [] = false
starts_with (a ∷ as') (b ∷ bs) = a == b && starts_with as' bs

abbrev pub ends_with_slash : Text → Bool
ends_with_slash [] = false
ends_with_slash (c ∷ []) = c == slash
ends_with_slash (c ∷ d ∷ cs) = ends_with_slash (d ∷ cs)

abbrev pub with_slash : Text → Text
with_slash [] = []
with_slash (c ∷ cs) = if ends_with_slash (c ∷ cs) then c ∷ cs else (c ∷ cs) ++ slash ∷ []

unfoldable pub normalize_root : Text → Text
normalize_root raw_root = with_slash (normalize_path raw_root)
