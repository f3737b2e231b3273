-- ===== src/Changes/Review.antt =====
-- src/agentic_security/changes/review.py, with the validator of `ChangeReviewItem`.
pub mod Gate
use Prim.Native.String.{◌++◌ as append}
use agentic_sec_blog_publish.Prelude.{
  ℕ, String, Bool, true, false, not, Option, none, some, List, [], Result, ok, err, ◌>>=◌, ◌>>◌,
  raise_if,
}
use agentic_sec_blog_publish.Models.Vocabulary.{
  ChangeClassification, DecisionImpact, pending, confirmed,
}
use agentic_sec_blog_publish.Models.Changes.{
  StructuredDiff, ChangeReviewItem, ReviewError, completed_review, is_pending,
  enforce_human_decision,
}
use agentic_sec_blog_publish.Changes.Classification.{classify_diff}

unfoldable pub create_review :
    (lower : String → String)
    → StructuredDiff
    → (review_id : String) → Result ReviewError ChangeReviewItem
create_review lower diff review_id =
    let p = classify_diff lower diff in
    enforce_human_decision (record {
      id = review_id;
      candidate_id = diff.id;
      machine_classification = p.classification;
      machine_rationale = p.rationale;
      machine_decision_impacts = p.impacts;
      evidence_status_subtype = diff.evidence_status_subtype;
      status = pending;
      reviewer = none;
      reviewed_at = none;
      human_classification = none;
      confirmed_decision_impacts = [];
      human_rationale = none;
      methodology_version = "ASI-1.0";
      prior_review_id = none;
    })

-- `review_id or f"{item.id}-H1"`
abbrev pub id_or : Option String → String → String
id_or none rest = rest
id_or (some String.[]) rest = rest
id_or (some text) rest = text

unfoldable pub confirm_review :
    ChangeReviewItem
    → (review_id : Option String) → (reviewer : String) → (reviewed_at : ℕ) → ChangeClassification
    → List DecisionImpact
    → (rationale : String) → Result ReviewError ChangeReviewItem
confirm_review item review_id reviewer reviewed_at classification decision_impacts rationale = do
  raise_if (not (is_pending item.status)) completed_review
  enforce_human_decision (record {
    id = id_or review_id (append item.id "-H1");
    candidate_id = item.candidate_id;
    machine_classification = item.machine_classification;
    machine_rationale = item.machine_rationale;
    machine_decision_impacts = item.machine_decision_impacts;
    evidence_status_subtype = item.evidence_status_subtype;
    status = confirmed;
    reviewer = some reviewer;
    reviewed_at = some reviewed_at;
    human_classification = some classification;
    confirmed_decision_impacts = decision_impacts;
    human_rationale = some rationale;
    methodology_version = item.methodology_version;
    prior_review_id = some item.id;
  })
