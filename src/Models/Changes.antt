-- ===== src/Models/Changes.antt =====
-- MaterialChange, StructuredDiff and ChangeReviewItem of src/agentic_security/models.py.
use agentic_sec_blog_publish.Prelude.{
  ℕ, String, Bool, true, false, not, ◌&&◌, ◌||◌, Option, none, some, List, [], ◌∷◌, any, Result, ok,
  err, ◌>>◌, raise_if, is_empty, is_some, if◌then◌else◌, ◌==◌,
}
use agentic_sec_blog_publish.Models.Vocabulary.{
  SubjectType, DecisionImpact, ChangeClassification, not_material, evidence_status_change,
  EvidenceStatusChangeSubtype, ReviewStatus, pending, confirmed,
}

pub record MaterialChange : Type 0 where
  pub id : String
  pub assertion_ids : List String
  pub description : String
  pub dimensions : List SubjectType
  pub decision_impacts : List DecisionImpact
  pub human_confirmed : Bool
  pub confirmed_by : Option String
  pub confirmed_at : Option ℕ

-- `not self.confirmed_by`: no text, or the empty one.
abbrev pub is_blank : Option String → Bool
is_blank none = true
is_blank (some text) = text == ""

-- `MaterialChange.human_gate`; the error carries nothing.
unfoldable pub human_gate : MaterialChange → Result (Unit {0}) MaterialChange
human_gate c =
    if c.human_confirmed
      && (is_empty c.decision_impacts || (is_blank c.confirmed_by || not (is_some c.confirmed_at)))
    then err tt
    else ok c

pub record StructuredDiff : Type 0 where
  pub id : String
  pub source_id : String
  pub old_snapshot_id : String
  pub new_snapshot_id : String
  pub added : List String
  pub removed : List String
  pub cosmetic_only : Bool
  pub paraphrase_only : Bool
  pub derivative_only : Bool
  pub material_candidate : Bool
  pub evidence_status_subtype : Option EvidenceStatusChangeSubtype
  pub fingerprint : String

pub record ChangeReviewItem : Type 0 where
  pub id : String
  pub candidate_id : String
  pub machine_classification : ChangeClassification
  pub machine_rationale : String
  pub machine_decision_impacts : List DecisionImpact
  pub evidence_status_subtype : Option EvidenceStatusChangeSubtype
  pub status : ReviewStatus
  pub reviewer : Option String
  pub reviewed_at : Option ℕ
  pub human_classification : Option ChangeClassification
  pub confirmed_decision_impacts : List DecisionImpact
  pub human_rationale : Option String
  pub methodology_version : String
  pub prior_review_id : Option String

abbrev pub is_pending : ReviewStatus → Bool
is_pending pending = true
is_pending _ = false

abbrev pub is_confirmed : ReviewStatus → Bool
is_confirmed confirmed = true
is_confirmed _ = false

abbrev pub is_not_material : ChangeClassification → Bool
is_not_material not_material = true
is_not_material _ = false

abbrev pub is_evidence_status : ChangeClassification → Bool
is_evidence_status evidence_status_change = true
is_evidence_status _ = false

-- `self.human_classification is not ChangeClassification.NOT_MATERIAL`
abbrev pub is_human_material : Option ChangeClassification → Bool
is_human_material none = true
is_human_material (some c) = not (is_not_material c)

pub data ReviewError : Type 0 where
  pending_with_decision decision_incomplete confirmed_without_impacts : ReviewError
  subtype_mismatch completed_review : ReviewError

-- Which of the four decision fields are given.
abbrev pub decision_fields : ChangeReviewItem → List Bool
decision_fields r =
    is_some r.reviewer
    ∷ is_some r.reviewed_at
    ∷ is_some r.human_classification
    ∷ is_some r.human_rationale
    ∷ []

-- `a != b` on Booleans.
abbrev pub differ : Bool → Bool → Bool
differ true b = not b
differ false b = b

-- `ChangeReviewItem.enforce_human_decision`
unfoldable pub enforce_human_decision : ChangeReviewItem → Result ReviewError ChangeReviewItem
enforce_human_decision r = do
  raise_if
      (is_pending r.status
        && (any (λ given. given) (decision_fields r)
            || (not (is_empty r.confirmed_decision_impacts) || is_some r.prior_review_id)))
      pending_with_decision
  raise_if
      (not (is_pending r.status)
        && (any (λ given. not given) (decision_fields r) || not (is_some r.prior_review_id)))
      decision_incomplete
  raise_if
      (is_confirmed r.status
        && (is_human_material r.human_classification && is_empty r.confirmed_decision_impacts))
      confirmed_without_impacts
  raise_if
      (differ (is_evidence_status r.machine_classification) (is_some r.evidence_status_subtype))
      subtype_mismatch
  ok r
