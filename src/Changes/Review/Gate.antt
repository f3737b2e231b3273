-- ===== src/Changes/Review/Gate.antt =====
-- The human gate of src/agentic_security/changes/review.py.
use agentic_sec_blog_publish.Prelude.{
  ℕ, String, ◌≡◌, refl, Bool, true, false, not, ◌&&◌, ◌||◌, ◌==◌, Bool-cases, Option, some, List,
  inl, inr, is_empty, is_some, Result, ok, err, is_ok, arith,
}
use agentic_sec_blog_publish.Models.Vocabulary.{ChangeClassification, DecisionImpact}
use agentic_sec_blog_publish.Models.Sources.{Snapshot}
use agentic_sec_blog_publish.Models.Changes.{
  StructuredDiff, ChangeReviewItem, completed_review, is_pending, differ, is_not_material,
  is_evidence_status, enforce_human_decision,
}
use agentic_sec_blog_publish.Changes.Detection.{
  Python, DetectionError, compare_texts, detect_change,
}
use agentic_sec_blog_publish.Changes.Classification.Outcome.{classify_diff-Outcome}
use agentic_sec_blog_publish.Changes.Review.{create_review, confirm_review}

-- The validator of a diff's review passes exactly when the diff is a candidate or has no subtype.
create_review_lem :
    (lower : String → String) (diff : StructuredDiff) (review_id : String)
    → is_ok (create_review lower diff review_id)
      ≡ (diff.material_candidate || not (is_some diff.evidence_status_subtype))
unfolding create_review enforce_human_decision
create_review_lem lower diff review_id = ground (arith, classify_diff-Outcome lower diff)

detect_change_subtype :
    (py : Python) (old new : Snapshot) (diff_id : String) (d : Bool) (diff : StructuredDiff)
    → detect_change py old new diff_id d ≡ ok diff
    → (diff.material_candidate || not (is_some diff.evidence_status_subtype)) ≡ true
unfolding detect_change
detect_change_subtype py old new diff_id d diff h =
    elim (Bool-cases (old.source_id == new.source_id)) [
      | inl e ↦
          elim (Bool-cases (compare_texts py old.normalized_text new.normalized_text d).material) [
            | inl m ↦ rw (← ok_inj refl (rw (e, m) at h)) refl
            | inr m ↦ rw (← ok_inj refl (rw (e, m) at h)) refl
          ]
      | inr e ↦ absurd (ground arith)
    ]
  where
    ok_inj :
        {a b : StructuredDiff} {r : Result DetectionError StructuredDiff}
        → r ≡ ok a
        → r ≡ ok b
        → a ≡ b
    ok_inj k l = cc

-- Every diff that `detect_change` gives, of whatever snapshots, can be put under review: the
-- validator of the pending review item accepts the machine's proposal.
pub create_review-detected :
    (py : Python) (old new : Snapshot) (diff_id review_id : String) (derivative_only : Bool)
    (diff : StructuredDiff)
    → detect_change py old new diff_id derivative_only ≡ ok diff
    → is_ok (create_review py.lower diff review_id) ≡ true
create_review-detected py old new diff_id review_id d diff h = ground (
  arith,
  create_review_lem py.lower diff review_id,
  detect_change_subtype py old new diff_id d diff h,
)

subtypes_agree :
    (item : ChangeReviewItem)
    → is_ok (enforce_human_decision item) ≡ true
    → differ (is_evidence_status item.machine_classification) (is_some item.evidence_status_subtype)
      ≡ false
unfolding enforce_human_decision
subtypes_agree item h = ground arith

enforce-same : (item made : ChangeReviewItem) → enforce_human_decision item ≡ ok made → item ≡ made
unfolding enforce_human_decision
enforce-same item made h = ground arith

-- For an item that its validator accepts, `confirm_review` succeeds exactly when the item is pending
-- and the human either calls the change not material or names a decision impact.
pub confirm_review-succeeds :
    (item : ChangeReviewItem) (review_id : Option String) (reviewer : String) (reviewed_at : ℕ)
    (c : ChangeClassification) (impacts : List DecisionImpact) (rationale : String)
    → is_ok (enforce_human_decision item) ≡ true
    → is_ok (confirm_review item review_id reviewer reviewed_at c impacts rationale)
      ≡ (is_pending item.status && (is_not_material c || not (is_empty impacts)))
unfolding confirm_review enforce_human_decision
confirm_review-succeeds item review_id reviewer reviewed_at c impacts rationale h =
    elim (Bool-cases (is_pending item.status)) [
      | inl p ↦ rw (p, subtypes_agree item h) (ground arith)
      | inr p ↦ rw p refl
    ]

-- A review that `confirm_review` gave refers to the item it was made from, keeps the candidate and
-- the machine's classification, impacts and subtype, carries the human's classification and
-- impacts, and cannot be confirmed again.
pub confirm_review-Final :
    (item made : ChangeReviewItem) (review_id : Option String) (reviewer : String) (reviewed_at : ℕ)
    (c : ChangeClassification) (impacts : List DecisionImpact) (rationale : String)
    → confirm_review item review_id reviewer reviewed_at c impacts rationale ≡ ok made
    → (made.prior_review_id ≡ some item.id)
      × (made.candidate_id ≡ item.candidate_id)
      × (made.machine_classification ≡ item.machine_classification)
      × (made.machine_decision_impacts ≡ item.machine_decision_impacts)
      × (made.evidence_status_subtype ≡ item.evidence_status_subtype)
      × (made.human_classification ≡ some c)
      × (made.confirmed_decision_impacts ≡ impacts)
      × ((next : Option String) (other : String) (at : ℕ) (k : ChangeClassification)
            (is : List DecisionImpact) (why : String)
          → confirm_review made next other at k is why ≡ err completed_review)
unfolding confirm_review
confirm_review-Final item made review_id reviewer reviewed_at c impacts rationale h =
    elim (Bool-cases (is_pending item.status)) [
      | inl p ↦
          rw (← enforce-same _ made (rw p at h))
            (refl, refl, refl, refl, refl, refl, refl, λ next other at k is why. refl)
      | inr p ↦ absurd (ground arith)
    ]
