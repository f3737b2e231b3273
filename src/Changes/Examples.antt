-- ===== src/Changes/Examples.antt =====
-- The laws of the changes at two concrete snapshots, with simple functions for Python's.
use agentic_sec_blog_publish.Prelude.{
  ℕ, String, ◌≡◌, refl, true, false, not, ◌&&◌, Option, none, some, List, [], ◌∷◌, is_empty,
  is_member, order_by, ok, err, is_ok, join,
}
use agentic_sec_blog_publish.Models.Vocabulary.{
  ReviewStatus, ChangeClassification, DecisionImpact, deployment,
}
use agentic_sec_blog_publish.Models.Sources.{Snapshot}
use agentic_sec_blog_publish.Models.Changes.{
  StructuredDiff, ChangeReviewItem, completed_review, is_not_material, is_evidence_status,
  enforce_human_decision,
}
use agentic_sec_blog_publish.Changes.Detection.{
  Python, meaningful_lines, detect_change, compare_texts, semantic, evidence_status_subtype,
}
use agentic_sec_blog_publish.Changes.Detection.Filters.{detect_change-IsDifference}
use agentic_sec_blog_publish.Changes.Classification.{classify_diff}
use agentic_sec_blog_publish.Changes.Classification.Outcome.{classify_diff-Outcome}
use agentic_sec_blog_publish.Changes.Review.{confirm_review}
use agentic_sec_blog_publish.Changes.Review.Gate.{confirm_review-Final}

abbrev py : Python
py = record {
  lower = λ s. s;
  strip = λ s. s;
  splitlines = λ s. s ∷ [];
  replace = λ s old new. s;
  is_cosmetic = λ s. false;
  drop_tracking = λ s. s;
  drop_small_words = λ s. s;
  words = λ s. s ∷ [];
  is_similar = λ a b. false;
  sha256 = λ s. "digest";
  finds_validation = λ s. false;
  finds_negated_validation = λ s. false;
}

abbrev snapshot : String → String → Snapshot
snapshot id text = record {
  id = id;
  source_id = "SRC-1";
  canonical_uri = "https://example.org";
  retrieved_at = 1;
  normalizer_version = "n1";
  sha256 = id;
  content_type = "text/html";
  raw_content = text;
  normalized_text = text;
  duplicate_of = none;
  repository = none;
  commit_sha = none;
  file_path = none;
}

abbrev old : Snapshot
old = snapshot "SNAP-1" "public preview"

abbrev new : Snapshot
new = snapshot "SNAP-2" "generally available"

abbrev diff : StructuredDiff
diff = record {
  id = "DIFF-1";
  source_id = "SRC-1";
  old_snapshot_id = "SNAP-1";
  new_snapshot_id = "SNAP-2";
  added = "generally available" ∷ [];
  removed = "public preview" ∷ [];
  cosmetic_only = false;
  paraphrase_only = false;
  derivative_only = false;
  material_candidate = true;
  evidence_status_subtype = none;
  fingerprint = "digest";
}

detected : detect_change py old new "DIFF-1" false ≡ ok diff
unfolding detect_change compare_texts meaningful_lines semantic evidence_status_subtype order_by
    join
detected = refl

classify_diff-Outcome_example :
    (is_not_material (classify_diff (λ s. s) diff).classification ≡ false)
    × (is_empty (classify_diff (λ s. s) diff).impacts ≡ false)
    × (is_evidence_status (classify_diff (λ s. s) diff).classification ≡ false)
classify_diff-Outcome_example = classify_diff-Outcome (λ s. s) diff

detect_change-IsDifference_example :
    ((line : String)
      → (is_member line diff.added ≡ (
          is_member line (meaningful_lines py "generally available")
          && not (is_member line (meaningful_lines py "public preview"))))
        × (is_member line diff.removed ≡ (
            is_member line (meaningful_lines py "public preview")
            && not (is_member line (meaningful_lines py "generally available")))))
    × (true ≡ true)
detect_change-IsDifference_example =
    detect_change-IsDifference py old new "DIFF-1" false diff detected

abbrev item : ChangeReviewItem
item = record {
  id = "REVIEW-1";
  candidate_id = "DIFF-1";
  machine_classification = ChangeClassification.availability_lifecycle_change;
  machine_rationale = "Matched";
  machine_decision_impacts = deployment ∷ [];
  evidence_status_subtype = none;
  status = ReviewStatus.pending;
  reviewer = none;
  reviewed_at = none;
  human_classification = none;
  confirmed_decision_impacts = [];
  human_rationale = none;
  methodology_version = "ASI-1.0";
  prior_review_id = none;
}

item_valid : is_ok (enforce_human_decision item) ≡ true
unfolding enforce_human_decision
item_valid = refl

abbrev made : ChangeReviewItem
made = record item {
  id = "REVIEW-1-H1";
  status = ReviewStatus.confirmed;
  reviewer = some "ann";
  reviewed_at = some 9;
  human_classification = some ChangeClassification.not_material;
  human_rationale = some "noise";
  prior_review_id = some "REVIEW-1";
}

made_run : confirm_review item none "ann" 9 ChangeClassification.not_material [] "noise" ≡ ok made
unfolding confirm_review enforce_human_decision
made_run = refl

confirm_review-Final_example :
    (made.prior_review_id ≡ some "REVIEW-1")
    × (made.candidate_id ≡ "DIFF-1")
    × (made.machine_classification ≡ item.machine_classification)
    × (made.machine_decision_impacts ≡ item.machine_decision_impacts)
    × (made.evidence_status_subtype ≡ item.evidence_status_subtype)
    × (made.human_classification ≡ some ChangeClassification.not_material)
    × (made.confirmed_decision_impacts ≡ [])
    × ((next : Option String) (other : String) (at : ℕ) (k : ChangeClassification)
          (is : List DecisionImpact) (why : String)
        → confirm_review made next other at k is why ≡ err completed_review)
confirm_review-Final_example =
    confirm_review-Final item made none "ann" 9 ChangeClassification.not_material [] "noise"
      made_run
