-- ===== src/Domain/Policy/Conflict.antt =====
-- packages/domain/src/conflict-priority.ts. Times are milliseconds since the epoch.
use text.Mathlib.Text.{◌==◌ as str_eq}
use text.Mathlib.TextEquality.{eq_iff}
use copilot_factory.Prelude.{
  ℕ, ◌+◌, ◌-◌, ◌*◌, ◌≤◌, ◌<◌, Bool, true, false, ◌&&◌, ◌||◌, leb, ltb, ◌==◌, any, [], ◌∷◌, String,
  same, if◌then◌else◌, ◌≡◌, ◌↔◌, ◌⊎◌, arith,
}
use copilot_factory.Domain.Status.Task.{TaskStatus, escalated, cancelled, failed, task_status_enum}

pub data ConflictPriority : Type 0 where
  automated lease_expiry operator : ConflictPriority

-- The numbers of the enumeration, by which priorities are compared.
abbrev pub priority_value : ConflictPriority → ℕ
priority_value automated = 1
priority_value lease_expiry = 2
priority_value operator = 3

-- `OPERATOR_ACTOR_TYPES.has(actorType)`.
unfoldable pub is_operator_actor : String → Bool
is_operator_actor actor_type = str_eq actor_type "operator" || str_eq actor_type "admin"

-- `OPERATOR_TARGET_STATUSES.has(targetStatus)`.
unfoldable pub is_operator_target : TaskStatus → Bool
is_operator_target target = any (same target) (escalated ∷ cancelled ∷ [])

-- `LEASE_MONITOR_ACTOR_TYPES.has(actorType)`.
unfoldable pub is_lease_monitor : String → Bool
is_lease_monitor actor_type =
    str_eq actor_type "lease-monitor" || str_eq actor_type "reconciliation"

unfoldable pub get_conflict_priority : String → TaskStatus → ConflictPriority
unfolding is_operator_actor is_operator_target is_lease_monitor
get_conflict_priority actor_type target =
    if is_operator_actor actor_type
    then operator
    else if is_operator_target target && str_eq actor_type "system"
    then operator
    else if is_lease_monitor actor_type && same target failed
    then lease_expiry
    else automated

unfoldable pub should_retry_on_conflict : String → TaskStatus → Bool
unfolding get_conflict_priority
should_retry_on_conflict actor_type target =
    ltb (priority_value automated) (priority_value (get_conflict_priority actor_type target))

-- `gracePeriodSeconds` is a natural number, so `<= 0` is `== 0`. The subtraction is made only where
-- it is exact.
unfoldable pub is_within_grace_period : ℕ → ℕ → ℕ → Bool
is_within_grace_period lease_expired_at result_received_at grace_period_seconds =
    if grace_period_seconds == 0
    then false
    else leb lease_expired_at result_received_at
      && leb (result_received_at - lease_expired_at) (grace_period_seconds * 1000)

-- A conflict is retried exactly for an operator or admin, for the system when it escalates or
-- cancels, and for the lease monitor or the reconciliation when it fails a task.
pub should_retry_on_conflict_iff :
    (actor_type : String) (target : TaskStatus)
    → (should_retry_on_conflict actor_type target ≡ true) ↔ (
        ((actor_type ≡ "operator") ⊎ (actor_type ≡ "admin"))
        ⊎ (((actor_type ≡ "system") × ((target ≡ escalated) ⊎ (target ≡ cancelled)))
            ⊎ (((actor_type ≡ "lease-monitor") ⊎ (actor_type ≡ "reconciliation"))
                × (target ≡ failed))))
unfolding should_retry_on_conflict
should_retry_on_conflict_iff actor_type target = (
  λ h. ground (
    arith,
    eq_iff actor_type "operator",
    eq_iff actor_type "admin",
    eq_iff actor_type "system",
    eq_iff actor_type "lease-monitor",
    eq_iff actor_type "reconciliation",
  ),
  λ h. ground (
    arith,
    eq_iff actor_type "operator",
    eq_iff actor_type "admin",
    eq_iff actor_type "system",
    eq_iff actor_type "lease-monitor",
    eq_iff actor_type "reconciliation",
  ),
)

-- A result is accepted exactly when the grace period is not 0 and it comes no earlier than the expiry
-- and no later than the grace period after it.
pub is_within_grace_period_iff :
    (expired received grace : ℕ)
    → (is_within_grace_period expired received grace ≡ true)
      ↔ ((0 < grace) × (expired ≤ received) × (received ≤ expired + grace * 1000))
unfolding is_within_grace_period
is_within_grace_period_iff expired received grace = (λ h. ground arith, λ h. ground arith)
