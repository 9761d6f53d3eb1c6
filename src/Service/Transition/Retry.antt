-- ===== src/Service/Transition/Retry.antt =====
-- packages/application/src/services/optimistic-retry.service.ts over any transition service: `attempt k` is
-- what its k-th call gives, whatever others wrote in between.
use copilot_factory.Prelude.{
  ℕ, zero, suc, ◌+◌, ◌≤◌, ◌<◌, Bool, true, false, Option, none, some, String, ◌≡◌, ◌⊎◌, inl, inr,
  refl, arith, Bool-cases, ◌==◌, ==_iff,
}
use copilot_factory.Domain.Status.Task.{TaskStatus}
use copilot_factory.Domain.Policy.Conflict.{should_retry_on_conflict}
use copilot_factory.Service.Errors.{Result, ok, throw, ServiceError}

abbrev pub is_version_conflict : ServiceError → Bool
is_version_conflict (ServiceError.version_conflict entity id version) = true
is_version_conflict _ = false

pub record PriorityTransitionResult {ℓ} (A : Type ℓ) : Type ℓ where
  pub result : A
  pub retries_used : ℕ

module _ {ℓ} {A : Type ℓ} (attempt : ℕ → Result A) where
  -- The loop from an attempt on, with the retries that are left. Each pass but the last uses one, so the
  -- number of the attempt is `retriesUsed` as well.
  unfoldable pub attempt_from : Bool → ℕ → ℕ → Result (PriorityTransitionResult A)
  attempt_from may_retry k zero = elim (attempt k) [
    | ok a ↦ ok (record { result = a; retries_used = k })
    | throw e ↦ throw e
  ]
  attempt_from may_retry k (suc left) = elim (attempt k) [
    | ok a ↦ ok (record { result = a; retries_used = k })
    | throw e ↦ elim (is_version_conflict e) [
      | false ↦ throw e
      | true ↦ elim may_retry [ false ↦ throw e | true ↦ attempt_from may_retry (k + 1) left ]
    ]
  ]

-- `maxRetries ?? DEFAULT_MAX_RETRIES`, a whole number: the error behind the loop, which only a negative or
-- fractional one reaches, is left out.
abbrev pub max_retries : Option ℕ → ℕ
max_retries none = 3
max_retries (some n) = n

unfoldable pub transition_task_with_priority :
    {A : Type 0}
    → (ℕ → Result A)
    → String
    → TaskStatus
    → Option ℕ
    → Result (PriorityTransitionResult A)
transition_task_with_priority attempt actor_type target options =
    attempt_from attempt (should_retry_on_conflict actor_type target) 0 (max_retries options)

module _ {ℓ} {A : Type ℓ} (attempt : ℕ → Result A) (may_retry : Bool) where
  -- The attempts from one on that meet a conflict.
  abbrev pub Conflicts : ℕ → ℕ → Type ℓ
  Conflicts from to =
      (i : ℕ)
      → from ≤ i
      → i < to
      → (e : ServiceError) × (attempt i ≡ throw e) × (is_version_conflict e ≡ true)

  -- How the loop ends: at some attempt, after conflicts that may be retried.
  pub record Ends (from left : ℕ) (r : Result (PriorityTransitionResult A)) : Type ℓ where
    pub last : ℕ
    pub after_from : from ≤ last
    pub within : last ≤ from + left
    pub retried : (may_retry ≡ true) ⊎ (last ≡ from)
    pub conflicts : Conflicts from last
    pub ending :
        ((a : A) × (attempt last ≡ ok a) × (r ≡ ok (record { result = a; retries_used = last })))
        ⊎ ((e : ServiceError) × (attempt last ≡ throw e)
            × (r ≡ throw e)
            × ((is_version_conflict e ≡ false) ⊎ ((may_retry ≡ false) ⊎ (last ≡ from + left))))

  here :
      (k left : ℕ) (r : Result (PriorityTransitionResult A))
      → (((a : A) × (attempt k ≡ ok a) × (r ≡ ok (record { result = a; retries_used = k })))
          ⊎ ((e : ServiceError) × (attempt k ≡ throw e)
              × (r ≡ throw e)
              × ((is_version_conflict e ≡ false) ⊎ ((may_retry ≡ false) ⊎ (k ≡ k + left)))))
      → Ends k left r
  here k left r x = record {
    last = k;
    after_from = omega arith;
    within = omega arith;
    retried = inr refl;
    conflicts = λ i a b. absurd (omega (arith, a, b));
    ending = x;
  }

  attempt_from-Ends : (k left : ℕ) → Ends k left (attempt_from attempt may_retry k left)
  unfolding attempt_from
  attempt_from-Ends k zero = go (attempt k) refl
    where
      go : (r : Result A) → attempt k ≡ r → Ends k zero (attempt_from attempt may_retry k zero)
      go (ok a) h = rw (attempt_from, h) (here k zero _ (inl (a, h, refl)))
      go (throw e) h =
          rw (attempt_from, h) (here k zero _ (inr (e, h, refl, inr (inr (omega arith)))))
  attempt_from-Ends k (suc left) = go (attempt k) refl (attempt_from-Ends (k + 1) left)
    where
      conflicts_from :
          (e : ServiceError) (last : ℕ)
          → attempt k ≡ throw e
          → is_version_conflict e ≡ true
          → Conflicts (k + 1) last
          → Conflicts k last
      conflicts_from e last h c rest i a b = elim (Bool-cases (i == k)) [
        | inl s ↦ (e, rw ((==_iff i k).0 s) h, c)
        | inr s ↦ rest i (ground arith) b
      ]

      later :
          (e : ServiceError)
          → attempt k ≡ throw e
          → is_version_conflict e ≡ true
          → may_retry ≡ true
          → Ends (k + 1) left (attempt_from attempt may_retry (k + 1) left)
          → Ends k (suc left) (attempt_from attempt may_retry (k + 1) left)
      later e h c m x = record {
        last = x.last;
        after_from = omega (arith, x.after_from);
        within = omega (arith, x.within);
        retried = inl m;
        conflicts = conflicts_from e x.last h c x.conflicts;
        ending = elim x.ending [
          | inl y ↦ inl y
          | inr (e', f, g, why) ↦ inr (
            e',
            f,
            g,
            elim why [
              | inl n ↦ inl n
              | inr (inl n) ↦ inr (inl n)
              | inr (inr n) ↦ inr (inr (omega (arith, n)))
            ],
          )
        ];
      }

      go :
          (r : Result A)
          → attempt k ≡ r
          → Ends (k + 1) left (attempt_from attempt may_retry (k + 1) left)
          → Ends k (suc left) (attempt_from attempt may_retry k (suc left))
      go (ok a) h rest = rw (attempt_from, h) (here k (suc left) _ (inl (a, h, refl)))
      go (throw e) h rest = elim (Bool-cases (is_version_conflict e)) [
        | inr n ↦ rw (attempt_from, h, n) (here k (suc left) _ (inr (e, h, refl, inl n)))
        | inl c ↦ elim (Bool-cases may_retry) [
          | inr n ↦
              let yields : attempt_from attempt may_retry k (suc left) ≡ throw e =
                rw (attempt_from, h, c, n) refl in
              rw yields (here k (suc left) (throw e) (inr (e, h, refl, inr (inl n))))
          | inl m ↦
              let again : attempt_from attempt may_retry k (suc left)
                  ≡ attempt_from attempt may_retry (k + 1) left =
                rw (attempt_from, h, c, m) refl in
              rw again (later e h c m rest)
        ]
      ]

-- The service makes at most `maxRetries` retries, each after a version conflict, and none if the actor has
-- to yield; it ends with the first attempt that is not a conflict, returning its result and the number of
-- retries or throwing its error, or with the conflict that it may not retry.
pub transition_task_with_priority-Ends :
    {A : Type 0} (attempt : ℕ → Result A) (actor_type : String) (target : TaskStatus)
    (options : Option ℕ)
    → Ends attempt
        (should_retry_on_conflict actor_type target)
        0
        (max_retries options)
        (transition_task_with_priority attempt actor_type target options)
unfolding transition_task_with_priority
transition_task_with_priority-Ends attempt actor_type target options =
    attempt_from-Ends attempt (should_retry_on_conflict actor_type target) 0 (max_retries options)
