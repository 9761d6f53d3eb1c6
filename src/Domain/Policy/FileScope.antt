-- ===== src/Domain/Policy/FileScope.antt =====
-- packages/domain/src/policies/file-scope-policy.ts: which files a worker may read and write.
pub mod Access
pub mod Diff
use copilot_factory.Prelude.{
  ℕ, Bool, true, false, not, ◌&&◌, Option, none, some, List, [], ◌∷◌, ◌++◌, map, length, filterb,
  if◌then◌else◌,
}
use copilot_factory.Domain.Policy.Paths.{Text, codes, normalize_path, normalize_root, starts_with}

pub data FileScopeViolationAction : Type 0 where
  fail_run deny_access audit_only : FileScopeViolationAction

pub data FileScopeViolationReason : Type 0 where
  denied_by_deny_root write_in_read_only_root outside_all_roots : FileScopeViolationReason
  write_outside_scope read_outside_scope invalid_path : FileScopeViolationReason

pub data FileScopeRootMatch : Type 0 where
  deny_root write_root read_root outside : FileScopeRootMatch

pub record FileScopePolicy : Type 0 where
  pub read_roots : List Text
  pub write_roots : List Text
  pub deny_roots : List Text
  pub allow_read_outside_scope : Bool
  pub allow_write_outside_scope : Bool
  pub on_violation : FileScopeViolationAction

pub record FileScopeEvaluation : Type 0 where
  pub allowed : Bool
  pub reason : Option FileScopeViolationReason
  pub explanation : Text
  pub action : Option FileScopeViolationAction
  pub normalized_path : Text
  pub matched_root : FileScopeRootMatch
  pub matched_root_value : Option Text

abbrev pub is_empty : Text → Bool
is_empty [] = true
is_empty (c ∷ cs) = false

-- `normalizedRoot !== "" && normalizedPath.startsWith(normalizedRoot)`.
unfoldable pub is_under : Text → Text → Bool
is_under path root = not (is_empty (normalize_root root)) && starts_with (normalize_root root) path

-- One of the loops of `classifyPath`: the first root that the path is under.
abbrev pub find_root : Text → List Text → Option Text
find_root path [] = none
find_root path (root ∷ roots) = if is_under path root then some root else find_root path roots

pub record Classification : Type 0 where
  pub match' : FileScopeRootMatch
  pub root_value : Option Text

unfoldable pub classify_path : Text → FileScopePolicy → Classification
classify_path path policy = elim (find_root path policy.deny_roots) [
  | some root ↦ record { match' = deny_root; root_value = some root }
  | none ↦ elim (find_root path policy.write_roots) [
    | some root ↦ record { match' = write_root; root_value = some root }
    | none ↦ elim (find_root path policy.read_roots) [
      | some root ↦ record { match' = read_root; root_value = some root }
      | none ↦ record { match' = outside; root_value = none }
    ]
  ]
]

-- How an absent value prints in a template.
abbrev pub printed : Option Text → Text
printed none = codes "undefined"
printed (some t) = t

abbrev pub permit : Text → Text → Classification → FileScopeEvaluation
permit explanation path c = record {
  allowed = true;
  reason = none;
  explanation = explanation;
  action = none;
  normalized_path = path;
  matched_root = c.match';
  matched_root_value = c.root_value;
}

abbrev pub deny :
    FileScopePolicy → FileScopeViolationReason → Text → Text → Classification → FileScopeEvaluation
deny policy reason explanation path c = record {
  allowed = false;
  reason = some reason;
  explanation = explanation;
  action = some policy.on_violation;
  normalized_path = path;
  matched_root = c.match';
  matched_root_value = c.root_value;
}

abbrev pub nowhere : Classification
nowhere = record { match' = outside; root_value = none }

-- The switch of `checkReadAccess`.
unfoldable pub judge_read : FileScopePolicy → Text → Classification → FileScopeEvaluation
judge_read policy path c = elim c.match' [
  | deny_root ↦
      deny policy denied_by_deny_root
        (codes "Read access denied: path \""
          ++ path
          ++ codes "\" falls under deny root \""
          ++ printed c.root_value
          ++ codes "\".")
        path c
  | write_root ↦
      permit
        (codes "Read access permitted: path \""
          ++ path
          ++ codes "\" is within write root \""
          ++ printed c.root_value
          ++ codes "\" (write roots grant read+write).")
        path c
  | read_root ↦
      permit
        (codes "Read access permitted: path \""
          ++ path
          ++ codes "\" is within read root \""
          ++ printed c.root_value
          ++ codes "\".")
        path c
  | outside ↦
      if policy.allow_read_outside_scope
      then permit
          (codes "Read access permitted: path \""
            ++ path
            ++ codes "\" is outside all roots but allow_read_outside_scope is true.")
          path nowhere
      else deny policy read_outside_scope
          (codes "Read access denied: path \""
            ++ path
            ++ codes "\" is outside all configured roots and allow_read_outside_scope is false.")
          path nowhere
]

-- The switch of `checkWriteAccess`.
unfoldable pub judge_write : FileScopePolicy → Text → Classification → FileScopeEvaluation
judge_write policy path c = elim c.match' [
  | deny_root ↦
      deny policy denied_by_deny_root
        (codes "Write access denied: path \""
          ++ path
          ++ codes "\" falls under deny root \""
          ++ printed c.root_value
          ++ codes "\".")
        path c
  | write_root ↦
      permit
        (codes "Write access permitted: path \""
          ++ path
          ++ codes "\" is within write root \""
          ++ printed c.root_value
          ++ codes "\".")
        path c
  | read_root ↦
      deny policy write_in_read_only_root
        (codes "Write access denied: path \""
          ++ path
          ++ codes "\" is within read root \""
          ++ printed c.root_value
          ++ codes "\" which only permits reads.")
        path c
  | outside ↦
      if policy.allow_write_outside_scope
      then permit
          (codes "Write access permitted: path \""
            ++ path
            ++ codes "\" is outside all roots but allow_write_outside_scope is true.")
          path nowhere
      else deny policy write_outside_scope
          (codes "Write access denied: path \""
            ++ path
            ++ codes "\" is outside all configured roots and allow_write_outside_scope is false.")
          path nowhere
]

-- `INVALID_PATH`.
abbrev pub invalid : FileScopePolicy → Text → FileScopeEvaluation
invalid policy path =
    deny policy invalid_path (codes "Path is empty or whitespace-only.") path nowhere

unfoldable pub check_read_access : Text → FileScopePolicy → FileScopeEvaluation
check_read_access path policy =
    let normalized = normalize_path path in
    if is_empty normalized
    then invalid policy normalized
    else judge_read policy normalized (classify_path normalized policy)

unfoldable pub check_write_access : Text → FileScopePolicy → FileScopeEvaluation
check_write_access path policy =
    let normalized = normalize_path path in
    if is_empty normalized
    then invalid policy normalized
    else judge_write policy normalized (classify_path normalized policy)

-- The summary, by the numbers and texts that it prints.
pub data Summary : Type 0 where
  all_within : ℕ → Summary
  some_violate : ℕ → ℕ → List Text → Summary

pub record PostRunDiffValidation : Type 0 where
  pub valid : Bool
  pub evaluations : List FileScopeEvaluation
  pub violations : List FileScopeEvaluation
  pub summary : Summary

-- The two returns of `validatePostRunDiff`.
unfoldable pub conclude :
    List FileScopeEvaluation → List FileScopeEvaluation → PostRunDiffValidation
conclude evaluations [] = record {
  valid = true;
  evaluations = evaluations;
  violations = [];
  summary = all_within (length evaluations);
}
conclude evaluations (v ∷ vs) = record {
  valid = false;
  evaluations = evaluations;
  violations = v ∷ vs;
  summary =
      some_violate (length (v ∷ vs)) (length evaluations) (map (λ e. e.normalized_path) (v ∷ vs));
}

unfoldable pub validate_post_run_diff : List Text → FileScopePolicy → PostRunDiffValidation
validate_post_run_diff modified_files policy =
    let evaluations = map (λ file. check_write_access file policy) modified_files in
    conclude evaluations (filterb (λ e. not e.allowed) evaluations)
