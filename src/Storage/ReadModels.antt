-- ===== src/Storage/ReadModels.antt =====
-- `LedgerReadRepository` of src/agentic_security/storage/read_models.py: what publication reads of the
-- tables of assertions, observations, reviews and contradictions.
pub mod Latest
pub mod Examples
use agentic_sec_blog_publish.Prelude.{
  ℕ, String, Bool, not, ◌==◌, Option, none, some, List, [], ◌∷◌, map, any, select, find, order_by,
  then_by, text_leb,
}
use agentic_sec_blog_publish.Models.Assertions.{Observation}
use agentic_sec_blog_publish.Models.Changes.{ChangeReviewItem, MaterialChange}
use agentic_sec_blog_publish.Models.Reports.{ContradictionFlag}
use agentic_sec_blog_publish.Storage.{Ledger, ConfirmedChange, FlagRow}
use agentic_sec_blog_publish.Storage.Reviews.{is_prior, review_has}

-- ORDER BY observed_at,id
abbrev observation_leb : Observation → Observation → Bool
observation_leb a b = then_by a.observed_at b.observed_at (text_leb a.id b.id)

unfoldable pub accepted_observations : Ledger → List Observation
unfolding order_by text_leb
accepted_observations l = order_by observation_leb (select (λ o. o.accepted) l.observations)

-- The payloads of contradiction_flags; the column `status` is not read.
unfoldable pub conflicts : Ledger → List ContradictionFlag
conflicts l = map (λ row. row.payload) l.contradiction_flags

unfoldable confirmed_changes : Ledger → List MaterialChange
confirmed_changes l = map (λ row. row.change) l.confirmed_changes

abbrev confirmed_time : ConfirmedChange → ℕ
confirmed_time row = time (row.change).confirmed_at
  where
    time : Option ℕ → ℕ
    time none = 0
    time (some t) = t

-- ORDER BY changes.confirmed_at,changes.id
abbrev confirmed_leb : ConfirmedChange → ConfirmedChange → Bool
confirmed_leb a b =
    then_by (confirmed_time a) (confirmed_time b) (text_leb (a.change).id (b.change).id)

abbrev with_review :
    String
    → Option ChangeReviewItem
    → List (String × ChangeReviewItem)
    → List (String × ChangeReviewItem)
with_review id none rest = rest
with_review id (some review) rest = (id, review) ∷ rest

abbrev joined : List ChangeReviewItem → List ConfirmedChange → List (String × ChangeReviewItem)
joined reviews [] = []
joined reviews (row ∷ rows) =
    with_review (row.change).id (find (review_has row.review_id) reviews) (joined reviews rows)

unfoldable confirmed_change_reviews : Ledger → List (String × ChangeReviewItem)
unfolding order_by text_leb
confirmed_change_reviews l = joined l.reviews (order_by confirmed_leb l.confirmed_changes)

-- WHERE newer.prior_review_id=current.id
abbrev pub succeeds : String → ChangeReviewItem → Bool
succeeds id review = is_prior review.prior_review_id (some id)

-- The rows that no row succeeds.
unfoldable pub latest_reviews : Ledger → List ChangeReviewItem
latest_reviews l = select (λ current. not (any (succeeds current.id) l.reviews)) l.reviews
