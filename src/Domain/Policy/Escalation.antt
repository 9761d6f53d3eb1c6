-- ===== src/Domain/Policy/Escalation.antt =====
-- packages/domain/src/policies/escalation-policy.ts.
use copilot_factory.Prelude.{
  ℕ, ◌<◌, Bool, true, false, leb, Option, none, some, String, if◌then◌else◌, ◌≡◌, ◌↔◌, refl, arith,
  not,
}

-- The values of `EscalationTrigger`, and any other text, which reaches the `default` branch.
pub data EscalationTrigger : Type 0 where
  max_retry_exceeded max_review_rounds_exceeded policy_violation : EscalationTrigger
  merge_failure_after_retries heartbeat_timeout : EscalationTrigger
  schema_validation_failure repeated_schema_failures : EscalationTrigger
  unknown_trigger : String → EscalationTrigger

-- `EscalationTriggerAction`, and the text "fail_and_escalate" that the default policy is cast to.
pub data EscalationAction : Type 0 where
  escalate fail_then_escalate retry_or_escalate : EscalationAction
  disable_profile_and_escalate fail_and_escalate : EscalationAction

-- `triggers[trigger]` is `undefined` where the configuration has no entry.
pub record EscalationPolicy : Type 0 where
  pub triggers : EscalationTrigger → Option EscalationAction
  pub route_to : String
  pub require_summary : Bool

pub record EscalationContext : Type 0 where
  pub trigger : EscalationTrigger
  pub retry_count : Option ℕ
  pub max_attempts : Option ℕ
  pub review_round : Option ℕ
  pub max_review_rounds : Option ℕ
  pub schema_failure_count : Option ℕ
  pub schema_failure_threshold : Option ℕ

-- The texts of `reason`, with the values that they quote.
pub data EscalationReason : Type 0 where
  below_limit : Option ℕ → Option ℕ → EscalationReason
  reached_limit : Option ℕ → Option ℕ → EscalationReason
  detected : EscalationTrigger → EscalationReason

pub record EscalationEvaluation : Type 0 where
  pub should_escalate : Bool
  pub action : EscalationAction
  pub route_to : String
  pub require_summary : Bool
  pub reason : EscalationReason

default_triggers : EscalationTrigger → Option EscalationAction
default_triggers max_retry_exceeded = some escalate
default_triggers max_review_rounds_exceeded = some escalate
default_triggers policy_violation = some escalate
default_triggers merge_failure_after_retries = some escalate
default_triggers heartbeat_timeout = some retry_or_escalate
default_triggers schema_validation_failure = some fail_and_escalate
default_triggers repeated_schema_failures = some disable_profile_and_escalate
default_triggers (unknown_trigger _) = none

unfoldable pub default_escalation_policy : EscalationPolicy
unfolding default_triggers
default_escalation_policy = record {
  triggers = default_triggers;
  route_to = "operator-queue";
  require_summary = true;
}

-- The three tests `isMaxRetryExceeded`, `isMaxReviewRoundsExceeded` and `isRepeatedSchemaFailure`
-- are one function of a count and a limit: without either they say yes.
unfoldable pub is_limit_reached : Option ℕ → Option ℕ → Bool
is_limit_reached none limit = true
is_limit_reached (some count) none = true
is_limit_reached (some count) (some limit) = leb limit count

unfoldable pub is_max_retry_exceeded : EscalationContext → Bool
unfolding is_limit_reached
is_max_retry_exceeded context = is_limit_reached context.retry_count context.max_attempts

unfoldable pub is_max_review_rounds_exceeded : EscalationContext → Bool
unfolding is_limit_reached
is_max_review_rounds_exceeded context =
    is_limit_reached context.review_round context.max_review_rounds

unfoldable pub is_repeated_schema_failure : EscalationContext → Bool
unfolding is_limit_reached
is_repeated_schema_failure context =
    is_limit_reached context.schema_failure_count context.schema_failure_threshold

unfoldable pub get_trigger_action : EscalationTrigger → EscalationPolicy → EscalationAction
get_trigger_action trigger policy = elim (policy.triggers trigger) [
  | none ↦ escalate
  | some action ↦ action
]

-- The record that each branch returns.
evaluation : Bool → EscalationAction → EscalationPolicy → EscalationReason → EscalationEvaluation
evaluation should_escalate action policy reason = record {
  should_escalate = should_escalate;
  action = action;
  route_to = policy.route_to;
  require_summary = policy.require_summary;
  reason = reason;
}

counted : Bool → EscalationAction → EscalationPolicy → Option ℕ → Option ℕ → EscalationEvaluation
unfolding evaluation
counted exceeded action policy count limit =
    if not exceeded
    then evaluation false action policy (below_limit count limit)
    else evaluation true action policy (reached_limit count limit)

-- The `switch` of `shouldEscalate`.
escalate_on :
    EscalationTrigger
    → EscalationContext
    → EscalationPolicy
    → EscalationAction
    → EscalationEvaluation
unfolding counted evaluation is_max_retry_exceeded is_max_review_rounds_exceeded
    is_repeated_schema_failure
escalate_on max_retry_exceeded c policy action =
    counted (is_max_retry_exceeded c) action policy c.retry_count c.max_attempts
escalate_on max_review_rounds_exceeded c policy action =
    counted (is_max_review_rounds_exceeded c) action policy c.review_round c.max_review_rounds
escalate_on repeated_schema_failures c policy action =
    counted (is_repeated_schema_failure c) action policy c.schema_failure_count
      c.schema_failure_threshold
escalate_on (unknown_trigger text) c policy action =
    evaluation true escalate policy (detected (unknown_trigger text))
escalate_on trigger c policy action = evaluation true action policy (detected trigger)

unfoldable pub should_escalate : EscalationContext → EscalationPolicy → EscalationEvaluation
unfolding escalate_on get_trigger_action
should_escalate context policy =
    escalate_on context.trigger context policy (get_trigger_action context.trigger policy)

-- The count and the limit that a trigger is judged by, if it is judged by any.
abbrev pub counts_of : EscalationTrigger → EscalationContext → Option (Option ℕ × Option ℕ)
counts_of max_retry_exceeded c = some (c.retry_count, c.max_attempts)
counts_of max_review_rounds_exceeded c = some (c.review_round, c.max_review_rounds)
counts_of repeated_schema_failures c = some (c.schema_failure_count, c.schema_failure_threshold)
counts_of _ c = none

abbrev Below : Option (Option ℕ × Option ℕ) → Type 0
Below counts =
    (count : ℕ) × (limit : ℕ) × (counts ≡ some (some count, some limit)) × (count < limit)

counted-Below :
    (a b : Option ℕ) (action : EscalationAction) (policy : EscalationPolicy)
    → (counted (is_limit_reached a b) action policy a b).should_escalate ≡ false
    → Below (some (a, b))
unfolding counted is_limit_reached
counted-Below none b action policy h = cc
counted-Below (some count) none action policy h = cc
counted-Below (some count) (some limit) action policy h = (count, limit, refl, ground arith)

counted_of_Below :
    (a b : Option ℕ) (action : EscalationAction) (policy : EscalationPolicy)
    → Below (some (a, b))
    → (counted (is_limit_reached a b) action policy a b).should_escalate ≡ false
unfolding counted is_limit_reached
counted_of_Below none b action policy (count, limit, e, h) = cc
counted_of_Below (some c) none action policy (count, limit, e, h) = cc
counted_of_Below (some c) (some l) action policy (count, limit, e, h) = ground arith

escalate_on-Below :
    (t : EscalationTrigger) (c : EscalationContext) (policy : EscalationPolicy)
    (action : EscalationAction)
    → (escalate_on t c policy action).should_escalate ≡ false
    → Below (counts_of t c)
unfolding escalate_on
escalate_on-Below max_retry_exceeded c policy action h = counted-Below _ _ action policy h
escalate_on-Below max_review_rounds_exceeded c policy action h = counted-Below _ _ action policy h
escalate_on-Below repeated_schema_failures c policy action h = counted-Below _ _ action policy h
escalate_on-Below _ c policy action h = cc

escalate_on_of_Below :
    (t : EscalationTrigger) (c : EscalationContext) (policy : EscalationPolicy)
    (action : EscalationAction)
    → Below (counts_of t c)
    → (escalate_on t c policy action).should_escalate ≡ false
unfolding escalate_on
escalate_on_of_Below max_retry_exceeded c policy action h = counted_of_Below _ _ action policy h
escalate_on_of_Below max_review_rounds_exceeded c policy action h =
    counted_of_Below _ _ action policy h
escalate_on_of_Below repeated_schema_failures c policy action h =
    counted_of_Below _ _ action policy h
escalate_on_of_Below _ c policy action (count, limit, e, h) = cc

-- The only way not to escalate: the trigger is one that counts, both its count and its limit are
-- given, and the count is below the limit.
pub should_escalate-false_iff :
    (context : EscalationContext) (policy : EscalationPolicy)
    → ((should_escalate context policy).should_escalate ≡ false) ↔ (
        (count : ℕ) × (limit : ℕ) × (counts_of context.trigger context
          ≡ some (some count, some limit))
        × (count < limit))
unfolding should_escalate
should_escalate-false_iff context policy = (
  escalate_on-Below context.trigger context policy (get_trigger_action context.trigger policy),
  escalate_on_of_Below context.trigger context policy (get_trigger_action context.trigger policy),
)
