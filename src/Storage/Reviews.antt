-- ===== src/Storage/Reviews.antt =====
-- `Pass2Repository` of src/agentic_security/storage/repositories.py: the review queue, append-only
-- by the triggers of storage/schema.sql, and the confirmed changes.
use agentic_sec_blog_publish.Prelude.{
  String, Bool, true, false, not, ◌&&◌, ◌||◌, ◌==◌, Option, none, some, List, [], ◌∷◌, ◌++◌, map,
  any, every, find, is_some, is_same, order_by, text_leb, Result, ok, ◌>>◌, raise_if, if◌then◌else◌,
}
use agentic_sec_blog_publish.Models.Vocabulary.{
  DecisionImpact, ChangeClassification-discrete, EvidenceStatusChangeSubtype,
  independent_validation_added, evidence_maturity_changed, evidence_contradiction_added,
}
use agentic_sec_blog_publish.Models.Changes.{
  MaterialChange, ChangeReviewItem, is_pending, is_confirmed, is_evidence_status, decision_fields,
  differ,
}
use agentic_sec_blog_publish.Editorial.{impact_text}
use agentic_sec_blog_publish.Storage.{
  Library, Ledger, StorageError, duplicate_key, missing_reference, failed_check, immutable_proposal,
  not_human_confirmed, not_confirmed_review, refers,
}

abbrev pub review_has : String → ChangeReviewItem → Bool
review_has id review = review.id == id

-- `json.dumps(sorted(item.value for item in impacts))`
abbrev pub impacts_json : Library → List DecisionImpact → String
impacts_json lib impacts = lib.dumps (order_by text_leb (map impact_text impacts))

-- `COALESCE(evidence_status_subtype, '')`
abbrev pub subtype_text : Option EvidenceStatusChangeSubtype → String
subtype_text none = ""
subtype_text (some independent_validation_added) = "INDEPENDENT_VALIDATION_ADDED"
subtype_text (some evidence_maturity_changed) = "EVIDENCE_MATURITY_CHANGED"
subtype_text (some evidence_contradiction_added) = "EVIDENCE_CONTRADICTION_ADDED"

-- The machine's proposal is the same in both rows.
unfoldable pub same_proposal : Library → ChangeReviewItem → ChangeReviewItem → Bool
same_proposal lib a b =
    (a.candidate_id == b.candidate_id)
    && (is_same ChangeClassification-discrete a.machine_classification b.machine_classification
        && ((a.machine_rationale == b.machine_rationale)
            && ((impacts_json lib a.machine_decision_impacts
                  == impacts_json lib b.machine_decision_impacts)
                && ((subtype_text a.evidence_status_subtype
                      == subtype_text b.evidence_status_subtype)
                    && (a.methodology_version == b.methodology_version)))))

-- The trigger change_review_queue_preserve_machine_proposal lets the row in.
unfoldable pub preserves_proposal :
    Library → List ChangeReviewItem → ChangeReviewItem → Option String → Bool
unfolding same_proposal
preserves_proposal lib reviews review none = true
preserves_proposal lib reviews review (some prior_id) =
    any (λ prior. review_has prior_id prior && same_proposal lib prior review) reviews

abbrev pub is_prior : Option String → Option String → Bool
is_prior (some a) (some b) = a == b
is_prior _ _ = false

-- The unique indexes one_machine_proposal_per_candidate and one_successor_per_review, and the key.
abbrev pub clashes : ChangeReviewItem → ChangeReviewItem → Bool
clashes review row =
    (row.id == review.id)
    || (if is_some review.prior_review_id
        then is_prior row.prior_review_id review.prior_review_id
        else not (is_some row.prior_review_id) && (row.candidate_id == review.candidate_id))

-- The two CHECK constraints of the table.
unfoldable pub passes_checks : ChangeReviewItem → Bool
passes_checks r =
    not (differ (is_evidence_status r.machine_classification) (is_some r.evidence_status_subtype))
    && (if is_pending r.status
        then every (λ given. not given) (decision_fields r) && not (is_some r.prior_review_id)
        else every (λ given. given) (decision_fields r) && is_some r.prior_review_id)

-- `add_review`
unfoldable pub add_review : Library → ChangeReviewItem → Ledger → Result StorageError Ledger
unfolding preserves_proposal passes_checks
add_review lib review l = do
  raise_if (not (preserves_proposal lib l.reviews review review.prior_review_id)) immutable_proposal
  raise_if (not (passes_checks review)) failed_check
  raise_if (any (clashes review) l.reviews) duplicate_key
  raise_if
      (not (any (λ diff. diff.id == review.candidate_id) l.structured_diffs)
        || (not (any (λ id. id == review.methodology_version) l.methodology_versions)
            || not (refers review_has review.prior_review_id l.reviews)))
      missing_reference
  ok (record l { reviews = l.reviews ++ (review ∷ []) })

abbrev pub is_confirmed_row : Option ChangeReviewItem → Bool
is_confirmed_row none = false
is_confirmed_row (some review) = is_confirmed review.status

-- `add_confirmed_change`
unfoldable pub add_confirmed_change : MaterialChange → String → Ledger → Result StorageError Ledger
add_confirmed_change change review_id l = do
  raise_if (not change.human_confirmed || not (is_some change.confirmed_at)) not_human_confirmed
  raise_if (not (is_confirmed_row (find (review_has review_id) l.reviews))) not_confirmed_review
  raise_if (any (λ row. (row.change).id == change.id) l.confirmed_changes) duplicate_key
  ok (record l {
    confirmed_changes =
        l.confirmed_changes ++ (record { change = change; review_id = review_id } ∷ []);
  })
