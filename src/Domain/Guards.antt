-- ===== src/Domain/Guards.antt =====
-- What the four files of packages/domain/src/state-machines share: a transition result, and the
-- `Map` from "FROM→TO" to a guard. No status contains an arrow, so a key is a pair of statuses.
use copilot_factory.Prelude.{
  Bool, true, false, Option, none, some, String, List, [], ◌∷◌, if◌then◌else◌, ◌&&◌, Enum, same,
  cons_if,
}

pub record TransitionResult : Type 0 where
  pub valid : Bool
  pub reason : Option String

abbrev pub valid_transition : TransitionResult
valid_transition = record { valid = true; reason = none }

abbrev pub reject : String → TransitionResult
reject reason = record { valid = false; reason = some reason }

-- `if (flag !== true) return reject(…)`, then the rest of the guard.
abbrev pub require : Bool → String → TransitionResult → TransitionResult
require test reason rest = if test then rest else reject reason

-- The entries of a `Map`, in insertion order.
abbrev pub GuardTable : Type 0 → Type 0 → Type 0
GuardTable S C = List (S × S × (C → TransitionResult))

module _ {S C : Type 0} ⦃e : Enum S⦄ where
  -- `TRANSITION_GUARDS.get(key)`.
  unfoldable pub find_guard : S → S → GuardTable S C → Option (C → TransitionResult)
  find_guard current target [] = none
  find_guard current target ((from, to, guard) ∷ rest) =
      if same current from && same target to then some guard else find_guard current target rest

  -- The loop of the `get…Targets` functions: the targets of the keys that start in `current`.
  unfoldable pub targets_from : S → GuardTable S C → List S
  targets_from current [] = []
  targets_from current ((from, to, guard) ∷ rest) =
      cons_if (same from current) to (targets_from current rest)

-- The loop of the `getAll…Transitions` functions.
unfoldable pub table_edges : {S C : Type 0} → GuardTable S C → List (S × S)
table_edges [] = []
table_edges ((from, to, guard) ∷ rest) = (from, to) ∷ table_edges rest
