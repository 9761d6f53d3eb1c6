-- ===== src/Domain/Status/Review.antt =====
-- packages/domain/src/enums.ts, `ReviewCycleStatus`.
use copilot_factory.Prelude.{ℕ, ◌≡◌, refl, some, get_elem?, Enum, List, [], ◌∷◌}

-- In the order of `Object.values(ReviewCycleStatus)`.
pub data ReviewCycleStatus : Type 0 where
  not_started routed in_progress awaiting_required_reviews consolidating approved rejected
        escalated :
      ReviewCycleStatus

abbrev pub review_statuses : List ReviewCycleStatus
review_statuses =
    not_started ∷ routed ∷ in_progress ∷ awaiting_required_reviews ∷ consolidating ∷ approved
    ∷ rejected ∷ escalated ∷ []

abbrev pub review_status_index : ReviewCycleStatus → ℕ
review_status_index not_started = 0
review_status_index routed = 1
review_status_index in_progress = 2
review_status_index awaiting_required_reviews = 3
review_status_index consolidating = 4
review_status_index approved = 5
review_status_index rejected = 6
review_status_index escalated = 7

pub review_status_at_index :
    (s : ReviewCycleStatus) → get_elem? review_statuses (review_status_index s) ≡ some s
review_status_at_index not_started = refl
review_status_at_index routed = refl
review_status_at_index in_progress = refl
review_status_at_index awaiting_required_reviews = refl
review_status_at_index consolidating = refl
review_status_at_index approved = refl
review_status_at_index rejected = refl
review_status_at_index escalated = refl

instance abbrev pub review_status_enum : Enum ReviewCycleStatus
review_status_enum = record {
  values = review_statuses;
  index = review_status_index;
  value-index = review_status_at_index;
}
