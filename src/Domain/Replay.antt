-- ===== src/Domain/Replay.antt =====
-- A life of an entity under one of the four machines: requests that are accepted one after another.
use copilot_factory.Prelude.{
  true, Option, none, some, List, [], ◌∷◌, ◌≡◌, ◌⊎◌, Bool, any, if◌then◌else◌, Bool-cases, inl, inr,
  arith,
}
use copilot_factory.Domain.Guards.{TransitionResult}

module _ {S C : Type 0} (validate : S → S → C → TransitionResult) where
  -- The status after a list of requests, each accepted by `validate`; `none` if one is refused.
  unfoldable pub replay : S → List (S × C) → Option S
  replay s [] = some s
  replay s ((target, ctx) ∷ rest) =
      let later = replay target rest in if (validate s target ctx).valid then later else none

  pub replay-cons :
      (s : S) (r : S × C) (log : List (S × C)) (t : S)
      → replay s (r ∷ log) ≡ some t
      → ((validate s r.0 r.1).valid ≡ true) × (replay r.0 log ≡ some t)
  unfolding replay
  replay-cons s (target, ctx) log t h = elim (Bool-cases (validate s target ctx).valid) [
    | inl e ↦ (e, ground arith)
    | inr e ↦ absurd (ground arith)
  ]

-- A stage that is entered only on some evidence: whoever is in it began in it, or gave the evidence.
module _ {S C : Type 0} (validate : S → S → C → TransitionResult) (stage : S → Bool)
    (gives : S × C → Bool)
    (step : (c t : S) (ctx : C)
      → (validate c t ctx).valid ≡ true
      → stage t ≡ true
      → (stage c ≡ true) ⊎ (gives (t, ctx) ≡ true)) where
  pub needs_evidence :
      (s t : S) (log : List (S × C))
      → replay validate s log ≡ some t
      → stage t ≡ true
      → (stage s ≡ true) ⊎ (any gives log ≡ true)
  unfolding replay
  needs_evidence s t [] h k = ground arith
  needs_evidence s t (r ∷ log) h k =
      let (v, later) = replay-cons validate s r log t h in
      ground (arith, needs_evidence r.0 t log later k, step s r.0 r.1)
