-- ===== src/Scenarios/Profiles.antt =====
-- Runs of packages/domain/src/policies/validation-policy.ts.
use text.Mathlib.TextEquality.{eq_iff}
use copilot_factory.Prelude.{false, String, none, some, [], ◌∷◌, ◌≡◌, ◌≢◌, ◌↔◌, ◌⊎◌, refl, Memᴰ}
use copilot_factory.Domain.Policy.Validation.{
  ValidationProfile, ProfileSelectionContext, MissingValidationProfileError, development,
  task_type_default, create_default_validation_policy, default_dev_profile, is_inherited, missing,
  resolve_profile_name, select_profile, get_missing_commands,
}
use copilot_factory.Domain.Policy.Validation.Selection.{
  Decides, by_type, absent, empty, resolve_profile_name-Decides, select_profile-missing_iff,
}
use copilot_factory.Domain.Policy.Validation.Commands.{get_missing_commands_iff}

-- The name of the template is empty, and the policy has no profile of that of the type.
abbrev context : ProfileSelectionContext
context = record {
  task_profile_override = none;
  workflow_template_profile = some "";
  task_type_profile = some "docs";
  stage = development;
}

abbrev docs : String
docs = "docs"

docs-given : docs ≢ ""
docs-given e = let t = (eq_iff docs "").1 e in absurd (cc)

docs-Decides : Decides context "docs" task_type_default
docs-Decides = by_type "docs" absent empty refl docs-given

resolve_profile_name-Decides_example :
    (resolve_profile_name context ≡ ("docs", task_type_default))
    ↔ Decides context "docs" task_type_default
resolve_profile_name-Decides_example = resolve_profile_name-Decides context "docs" task_type_default

select_profile-missing_iff_example :
    ((e : MissingValidationProfileError) × (select_profile create_default_validation_policy context
        ≡ missing e))
    ↔ (((profile : ValidationProfile)
          → ¬ Memᴰ ("docs", profile) create_default_validation_policy.profiles)
        × (is_inherited "docs" ≡ false))
select_profile-missing_iff_example =
    select_profile-missing_iff create_default_validation_policy context "docs" task_type_default
      docs-Decides

abbrev profile : ValidationProfile
profile = record default_dev_profile { commands = ("test", "pnpm test") ∷ [] }

get_missing_commands_iff_example : Memᴰ "lint" (get_missing_commands profile) ↔ (
    (Memᴰ "lint" profile.required_checks ⊎ Memᴰ "lint" profile.optional_checks)
    × ((command : String) → ¬ Memᴰ ("lint", command) profile.commands)
    × (is_inherited "lint" ≡ false))
get_missing_commands_iff_example = get_missing_commands_iff profile "lint"
