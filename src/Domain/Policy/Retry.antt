-- ===== src/Domain/Policy/Retry.antt =====
-- packages/domain/src/policies/retry-policy.ts. Counts and seconds are natural numbers; the doubles
-- of the source hold them exactly up to 2 ^ 53.
use copilot_factory.Prelude.{
  ℕ, suc, ◌+◌, ◌-◌, ◌*◌, ◌^◌, ◌≤◌, ◌<◌, min, Bool, true, false, not, ◌&&◌, leb, ◌==◌, Option, none,
  some, if◌then◌else◌, ◌≡◌, ◌↔◌, ◌⊎◌, arith,
}
use native.Mathlib.Nat.{pow-suc}
use copilot_factory.Domain.Status.Task.{TaskStatus}

-- The field `backoff_strategy` has one value, "exponential", and no code reads it.
pub record RetryPolicy : Type 0 where
  pub max_attempts : ℕ
  pub initial_backoff_seconds : ℕ
  pub max_backoff_seconds : ℕ
  pub reuse_same_pool : Bool
  pub allow_pool_change_after_failure : Bool
  pub require_failure_summary_packet : Bool

pub record RetryEvaluationContext : Type 0 where
  pub retry_count : ℕ
  pub has_failure_summary : Bool

-- The texts of `reason`, with the values that they quote; the last one is that of
-- packages/application/src/services/lease-reclaim.service.ts.
pub data RetryReason : Type 0 where
  max_attempts_reached : ℕ → ℕ → RetryReason
  failure_summary_missing : RetryReason
  task_not_reclaim_eligible : TaskStatus → RetryReason

pub record RetryEvaluation : Type 0 where
  pub eligible : Bool
  pub backoff_seconds : ℕ
  pub next_attempt : ℕ
  pub reason : Option RetryReason

unfoldable pub default_retry_policy : RetryPolicy
default_retry_policy = record {
  max_attempts = 2;
  initial_backoff_seconds = 60;
  max_backoff_seconds = 900;
  reuse_same_pool = true;
  allow_pool_change_after_failure = true;
  require_failure_summary_packet = true;
}

unfoldable pub calculate_backoff : ℕ → RetryPolicy → ℕ
calculate_backoff attempt policy =
    if attempt == 0
    then 0
    else min (policy.initial_backoff_seconds * 2 ^ (attempt - 1)) policy.max_backoff_seconds

unfoldable pub should_retry : RetryEvaluationContext → RetryPolicy → RetryEvaluation
should_retry context policy =
    let next_attempt = context.retry_count + 1 in
    if leb policy.max_attempts context.retry_count
    then record {
      eligible = false;
      backoff_seconds = 0;
      next_attempt = next_attempt;
      reason = some (RetryReason.max_attempts_reached context.retry_count policy.max_attempts);
    }
    else if policy.require_failure_summary_packet && not context.has_failure_summary
    then record {
      eligible = false;
      backoff_seconds = 0;
      next_attempt = next_attempt;
      reason = some RetryReason.failure_summary_missing;
    }
    else record {
      eligible = true;
      backoff_seconds = calculate_backoff next_attempt policy;
      next_attempt = next_attempt;
      reason = none;
    }

doubled : (i n : ℕ) → i * 2 ^ (n + 2 - 1) ≡ 2 * (i * 2 ^ (n + 1 - 1))
doubled i n =
    let p : n + 2 - 1 ≡ suc n = omega arith in
    let q : n + 1 - 1 ≡ n = omega arith in rw (p, q, pow-suc) (omega arith)

-- The delay before attempt n + 2 is twice the delay before attempt n + 1, or the maximum if that is
-- smaller; the delay before attempt 1 is the initial one, cut at the maximum.
pub calculate_backoff-suc :
    (n : ℕ) (policy : RetryPolicy)
    → (calculate_backoff (n + 2) policy
        ≡ min (2 * calculate_backoff (n + 1) policy) policy.max_backoff_seconds)
      × (calculate_backoff 1 policy ≡ min policy.initial_backoff_seconds policy.max_backoff_seconds)
unfolding calculate_backoff
calculate_backoff-suc n policy =
    (ground (arith, doubled policy.initial_backoff_seconds n), ground arith)

-- A retry is granted exactly when the count is below the limit and the failure summary is there if
-- the policy asks for one; then the delay is at most the maximum, and 0 if it is not granted.
pub should_retry_iff :
    (context : RetryEvaluationContext) (policy : RetryPolicy)
    → (((should_retry context policy).eligible ≡ true) ↔ (
        (context.retry_count < policy.max_attempts)
        × ((policy.require_failure_summary_packet ≡ false) ⊎ (context.has_failure_summary ≡ true))))
      × ((should_retry context policy).backoff_seconds ≤ policy.max_backoff_seconds)
      × ((should_retry context policy).next_attempt ≡ context.retry_count + 1)
unfolding should_retry calculate_backoff
should_retry_iff context policy =
    ((λ h. ground arith, λ h. ground arith), ground arith, ground arith)
