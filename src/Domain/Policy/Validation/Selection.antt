-- ===== src/Domain/Policy/Validation/Selection.antt =====
-- The choice of a profile in packages/domain/src/policies/validation-policy.ts.
use text.Mathlib.Text.{◌==◌ as str_eq}
use text.Mathlib.TextEquality.{eq_iff}
use copilot_factory.Prelude.{
  false, Option, none, some, String, List, [], ◌∷◌, ◌≡◌, ◌≢◌, ◌↔◌, ◌⊎◌, inl, inr, refl, ap, ◌∙◌,
  arith, Bool-cases, Option-cases, Memᴰ, not-nil, cases_cons,
}
use copilot_factory.Domain.Policy.Validation.{
  ValidationStage, development, merge, ProfileSelectionSource, task_override, workflow_template,
  task_type_default, system_default, ValidationProfile, ValidationPolicy, ProfileSelectionContext,
  is_inherited, missing, MissingValidationProfileError, get_system_default_profile_name, find_own,
  find_property, or_next, resolve_profile_name, missing_profile, select_named, select_profile,
}

-- A level that gives no name.
pub data IsSilent : Option String → Type 0 where
  absent : IsSilent none
  empty : IsSilent (some "")

-- The level that decides: the first that gives a name, or else the stage, with its default name.
pub data Decides (c : ProfileSelectionContext) : String → ProfileSelectionSource → Type 0 where
  by_task :
      (name : String)
      → c.task_profile_override ≡ some name
      → name ≢ ""
      → Decides c name task_override
  by_template :
      (name : String)
      → IsSilent c.task_profile_override
      → c.workflow_template_profile ≡ some name
      → name ≢ ""
      → Decides c name workflow_template
  by_type :
      (name : String)
      → IsSilent c.task_profile_override
      → IsSilent c.workflow_template_profile
      → c.task_type_profile ≡ some name
      → name ≢ ""
      → Decides c name task_type_default
  by_development :
      IsSilent c.task_profile_override
      → IsSilent c.workflow_template_profile
      → IsSilent c.task_type_profile
      → c.stage ≡ development
      → Decides c "default-dev" system_default
  by_merge :
      IsSilent c.task_profile_override
      → IsSilent c.workflow_template_profile
      → IsSilent c.task_type_profile
      → c.stage ≡ merge
      → Decides c "merge-gate" system_default

silent-next :
    (o : Option String) (source : ProfileSelectionSource) (next : String × ProfileSelectionSource)
    → IsSilent o
    → or_next o source next ≡ next
silent-next o source next absent = refl
silent-next o source next empty = refl

given-next :
    (o : Option String) (source : ProfileSelectionSource) (next : String × ProfileSelectionSource)
    (name : String)
    → o ≡ some name
    → name ≢ ""
    → or_next o source next ≡ (name, source)
given-next o source next name e n = elim (Bool-cases (str_eq name "")) [
  | inl h ↦ absurd (n ((eq_iff name "").0 h))
  | inr h ↦ rw (e, or_next, h) refl
]

level-cases : (o : Option String) → IsSilent o ⊎ ((name : String) × (o ≡ some name) × (name ≢ ""))
level-cases none = inl absent
level-cases (some name) = elim (Bool-cases (str_eq name "")) [
  | inl h ↦ let e = (eq_iff name "").0 h in inl (rw e empty)
  | inr h ↦ inr (name, refl, λ e. let t = (eq_iff name "").1 e in absurd (ground arith))
]

by_stage :
    (c : ProfileSelectionContext)
    → IsSilent c.task_profile_override
    → IsSilent c.workflow_template_profile
    → IsSilent c.task_type_profile
    → (stage : ValidationStage) → c.stage ≡ stage
    → (name : String) × (source : ProfileSelectionSource) × Decides c name source
by_stage c s1 s2 s3 development e = ("default-dev", system_default, by_development s1 s2 s3 e)
by_stage c s1 s2 s3 merge e = ("merge-gate", system_default, by_merge s1 s2 s3 e)

decided :
    (c : ProfileSelectionContext)
    → (name : String) × (source : ProfileSelectionSource) × Decides c name source
decided c = elim (level-cases c.task_profile_override) [
  | inr (name, e, n) ↦ (name, task_override, by_task name e n)
  | inl s1 ↦ elim (level-cases c.workflow_template_profile) [
    | inr (name, e, n) ↦ (name, workflow_template, by_template name s1 e n)
    | inl s2 ↦ elim (level-cases c.task_type_profile) [
      | inr (name, e, n) ↦ (name, task_type_default, by_type name s1 s2 e n)
      | inl s3 ↦ by_stage c s1 s2 s3 c.stage refl
    ]
  ]
]

all_silent :
    (c : ProfileSelectionContext)
    → IsSilent c.task_profile_override
    → IsSilent c.workflow_template_profile
    → IsSilent c.task_type_profile
    → resolve_profile_name c ≡ (get_system_default_profile_name c.stage, system_default)
unfolding resolve_profile_name
all_silent c s1 s2 s3 =
    silent-next c.task_profile_override _ _ s1
    ∙ silent-next c.workflow_template_profile _ _ s2
    ∙ silent-next c.task_type_profile _ _ s3

Decides-resolved :
    (c : ProfileSelectionContext) (name : String) (source : ProfileSelectionSource)
    → Decides c name source
    → resolve_profile_name c ≡ (name, source)
unfolding resolve_profile_name get_system_default_profile_name
Decides-resolved c name _ (by_task _ e n) = given-next c.task_profile_override _ _ name e n
Decides-resolved c name _ (by_template _ s1 e n) =
    silent-next c.task_profile_override _ _ s1 ∙ given-next c.workflow_template_profile _ _ name e n
Decides-resolved c name _ (by_type _ s1 s2 e n) =
    silent-next c.task_profile_override _ _ s1
    ∙ silent-next c.workflow_template_profile _ _ s2
    ∙ given-next c.task_type_profile _ _ name e n
Decides-resolved c _ _ (by_development s1 s2 s3 e) = all_silent c s1 s2 s3 ∙ rw e refl
Decides-resolved c _ _ (by_merge s1 s2 s3 e) = all_silent c s1 s2 s3 ∙ rw e refl

-- The name and its source are those of the first level, in the order of task, workflow template and task
-- type, that gives a name which is not empty; else the name is default-dev in the stage of development and
-- merge-gate in that of merge.
pub resolve_profile_name-Decides :
    (c : ProfileSelectionContext) (name : String) (source : ProfileSelectionSource)
    → (resolve_profile_name c ≡ (name, source)) ↔ Decides c name source
resolve_profile_name-Decides c name source = (
  λ h.
      let (n, s, d) = decided c in
      let e = Decides-resolved c n s d in
      let same_name : name ≡ n = cc in
      let same_source : source ≡ s = cc in rw (same_name, same_source) d,
  Decides-resolved c name source,
)

find_own-none_iff {ℓ} :
    {A : Type ℓ} (name : String) (entries : List (String × A))
    → (find_own name entries ≡ none) ↔ ((value : A) → ¬ Memᴰ (name, value) entries)
find_own-none_iff name [] = (λ h value m. not-nil m, λ h. refl)
find_own-none_iff name ((key, x) ∷ entries) = elim (Bool-cases (str_eq name key)) [
  | inl e ↦ (
    λ h. absurd (let h' = rw (e, find_own) at h in cc),
    λ h. absurd (h x (Memᴰ.head (ap (λ k. (k, x)) ((eq_iff name key).0 e)))),
  )
  | inr e ↦ (
    λ h value m. elim (cases_cons m) [
      | inl s ↦ let t = (eq_iff name key).1 (ap (λ y. y.0) s) in absurd (cc)
      | inr n ↦ (find_own-none_iff name entries).0 (rw (e, find_own) at h) value n
    ],
    λ h. rw (find_own, e) ((find_own-none_iff name entries).1 (λ value m. h value (Memᴰ.tail m))),
  )
]

find_property-none_iff :
    (name : String) (policy : ValidationPolicy)
    → (find_property name policy ≡ none) ↔ (
        ((profile : ValidationProfile) → ¬ Memᴰ (name, profile) policy.profiles)
        × (is_inherited name ≡ false))
find_property-none_iff name policy = elim (Option-cases (find_own name policy.profiles)) [
  | inr (p, e) ↦ (
    λ h. absurd (let h' = rw (e, find_property) at h in cc),
    λ (h, i). let e' = (find_own-none_iff name policy.profiles).1 h in absurd (cc),
  )
  | inl e ↦ elim (Bool-cases (is_inherited name)) [
    | inl i ↦ (λ h. absurd (let h' = rw (e, i, find_property) at h in cc), λ (h, j). absurd (cc))
    | inr i ↦ (
      λ h. ((find_own-none_iff name policy.profiles).0 e, i),
      λ (h, j). rw (find_property, e, i) refl,
    )
  ]
]

select_named-missing :
    (policy : ValidationPolicy) (name : String) (source : ProfileSelectionSource)
    (e : MissingValidationProfileError)
    → select_named policy (name, source) ≡ missing e
    → find_property name policy ≡ none
select_named-missing policy name source e h = elim (Option-cases (find_property name policy)) [
  | inl n ↦ n
  | inr (p, f) ↦ absurd (let h' = rw (f, select_named) at h in cc)
]

-- The selection fails exactly when the policy has no profile of the name that was resolved, and no object
-- inherits a property of that name.
pub select_profile-missing_iff :
    (policy : ValidationPolicy) (c : ProfileSelectionContext) (name : String)
    (source : ProfileSelectionSource)
    → Decides c name source
    → ((e : MissingValidationProfileError) × (select_profile policy c ≡ missing e)) ↔ (
        ((profile : ValidationProfile) → ¬ Memᴰ (name, profile) policy.profiles)
        × (is_inherited name ≡ false))
unfolding select_profile
select_profile-missing_iff policy c name source d =
    let r = Decides-resolved c name source d in
    (
      λ (e, h).
          (find_property-none_iff name policy).0
            (select_named-missing policy name source e (rw r at h)),
      λ h.
          let n = (find_property-none_iff name policy).1 h in
          (
            missing_profile policy name source,
            ap (select_named policy) r ∙ rw (select_named, n) refl,
          ),
    )
