-- ===== src/Domain/Policy/Validation.antt =====
-- packages/domain/src/policies/validation-policy.ts. An object that is used as a map is an association
-- list of its own keys; a lookup also finds the properties that every object inherits.
pub mod Selection
pub mod Commands
use text.Mathlib.Text.{◌==◌ as str_eq}
use copilot_factory.Prelude.{
  Bool, true, false, not, ◌||◌, Option, none, some, String, List, [], ◌∷◌, ◌++◌, any, filterb, map,
}

pub data ValidationStage : Type 0 where
  development merge : ValidationStage

pub data ProfileSelectionSource : Type 0 where
  task_override workflow_template task_type_default system_default : ProfileSelectionSource

pub record ValidationProfile : Type 0 where
  pub required_checks : List String
  pub optional_checks : List String
  pub commands : List (String × String)
  pub fail_on_skipped_required_check : Bool

pub record ValidationPolicy : Type 0 where
  pub profiles : List (String × ValidationProfile)

pub record ProfileSelectionContext : Type 0 where
  pub task_profile_override : Option String
  pub workflow_template_profile : Option String
  pub task_type_profile : Option String
  pub stage : ValidationStage

-- The names of the properties of `Object.prototype`.
abbrev pub inherited_names : List String
inherited_names =
    "constructor" ∷ "toString" ∷ "toLocaleString" ∷ "valueOf" ∷ "hasOwnProperty" ∷ "isPrototypeOf"
    ∷ "propertyIsEnumerable" ∷ "__proto__" ∷ "__defineGetter__" ∷ "__defineSetter__"
    ∷ "__lookupGetter__" ∷ "__lookupSetter__" ∷ []

abbrev pub is_inherited : String → Bool
is_inherited name = any (str_eq name) inherited_names

-- What `policy.profiles[name]` gives when it is not `undefined`.
pub data Property : Type 0 where
  own : ValidationProfile → Property
  inherited : Property

pub record ProfileSelectionResult : Type 0 where
  pub profile : Property
  pub profile_name : String
  pub source : ProfileSelectionSource

pub record MissingValidationProfileError : Type 0 where
  pub profile_name : String
  pub source : ProfileSelectionSource
  pub available_profiles : List String

pub data ProfileSelection : Type 0 where
  selected : ProfileSelectionResult → ProfileSelection
  missing : MissingValidationProfileError → ProfileSelection

abbrev pub default_dev_profile : ValidationProfile
default_dev_profile = record {
  required_checks = "test" ∷ "lint" ∷ [];
  optional_checks = "build" ∷ [];
  commands = ("test", "pnpm test") ∷ ("lint", "pnpm lint") ∷ ("build", "pnpm build") ∷ [];
  fail_on_skipped_required_check = true;
}

abbrev pub merge_gate_profile : ValidationProfile
merge_gate_profile = record {
  required_checks = "test" ∷ "build" ∷ [];
  optional_checks = "lint" ∷ [];
  commands = ("test", "pnpm test") ∷ ("build", "pnpm build") ∷ ("lint", "pnpm lint") ∷ [];
  fail_on_skipped_required_check = true;
}

abbrev pub create_default_validation_policy : ValidationPolicy
create_default_validation_policy = record {
  profiles = ("default-dev", default_dev_profile) ∷ ("merge-gate", merge_gate_profile) ∷ [];
}

unfoldable pub get_system_default_profile_name : ValidationStage → String
get_system_default_profile_name development = "default-dev"
get_system_default_profile_name merge = "merge-gate"

abbrev pub find_own {ℓ} : {A : Type ℓ} → String → List (String × A) → Option A
find_own name [] = none
find_own name ((key, value) ∷ entries) = elim (str_eq name key) [
  | true ↦ some value
  | false ↦ find_own name entries
]

abbrev pub find_property : String → ValidationPolicy → Option Property
find_property name policy = elim (find_own name policy.profiles) [
  | some profile ↦ some (own profile)
  | none ↦ elim (is_inherited name) [ true ↦ some inherited | false ↦ none ]
]

-- `level !== undefined && level !== ""`: the name that a level gives, or what the next ones give.
abbrev pub or_next :
    Option String
    → ProfileSelectionSource
    → String × ProfileSelectionSource
    → String × ProfileSelectionSource
or_next none source next = next
or_next (some name) source next = elim (str_eq name "") [ true ↦ next | false ↦ (name, source) ]

unfoldable pub resolve_profile_name : ProfileSelectionContext → String × ProfileSelectionSource
resolve_profile_name context = or_next context.task_profile_override task_override (
    or_next context.workflow_template_profile workflow_template (
      or_next context.task_type_profile task_type_default
        (get_system_default_profile_name context.stage, system_default)))

abbrev pub missing_profile :
    ValidationPolicy → String → ProfileSelectionSource → MissingValidationProfileError
missing_profile policy name source = record {
  profile_name = name;
  source = source;
  available_profiles = map (λ entry. entry.0) policy.profiles;
}

abbrev pub select_named : ValidationPolicy → String × ProfileSelectionSource → ProfileSelection
select_named policy (name, source) = elim (find_property name policy) [
  | none ↦ missing (missing_profile policy name source)
  | some profile ↦ selected (record { profile = profile; profile_name = name; source = source })
]

unfoldable pub select_profile : ValidationPolicy → ProfileSelectionContext → ProfileSelection
select_profile policy context = select_named policy (resolve_profile_name context)

abbrev pub get_all_checks : ValidationProfile → List String
get_all_checks profile = profile.required_checks ++ profile.optional_checks

-- `check in profile.commands`.
abbrev pub is_in : String → List (String × String) → Bool
is_in check commands = any (λ entry. str_eq check entry.0) commands || is_inherited check

unfoldable pub get_missing_commands : ValidationProfile → List String
get_missing_commands profile =
    filterb (λ check. not (is_in check profile.commands)) (get_all_checks profile)
