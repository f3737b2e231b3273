-- ===== src/Models/Evidence.antt =====
-- EvidenceAnchor, IndependenceFacets and Evidence of src/agentic_security/models.py.
use agentic_sec_blog_publish.Prelude.{
  ℕ, String, Bool, false, not, ◌&&◌, Option, some, List, [], ◌∷◌, leb, ltb, any, every, Result, ok,
  ◌>>◌, raise_if, is_some,
}
use agentic_sec_blog_publish.Models.Vocabulary.{
  SourceClass, EvidenceMaturity, ClaimPurpose, FundingRelationship, CommercialRelationship,
}

pub record EvidenceAnchor : Type 0 where
  pub snapshot_id : String
  pub snapshot_sha256 : String
  pub normalizer_version : String
  pub document_path : String
  pub document_heading : String
  pub quote : String
  pub start_offset : ℕ
  pub end_offset : ℕ
  pub repository : Option String
  pub commit_sha : Option String
  pub file_path : Option String
  pub line_start : Option ℕ
  pub line_end : Option ℕ

pub data AnchorError : Type 0 where
  end_before_start git_fields_incomplete line_end_before_start : AnchorError

-- Which of the five git values of an anchor are given.
abbrev pub git_fields : EvidenceAnchor → List Bool
git_fields a =
    is_some a.repository
    ∷ is_some a.commit_sha
    ∷ is_some a.file_path
    ∷ is_some a.line_start
    ∷ is_some a.line_end
    ∷ []

-- `self.line_start and self.line_end and self.line_end < self.line_start`
abbrev pub lines_reversed : Option ℕ → Option ℕ → Bool
lines_reversed (some first) (some last) = ltb 0 first && (ltb 0 last && ltb last first)
lines_reversed _ _ = false

-- `EvidenceAnchor.validate_shape`
unfoldable pub validate_shape : EvidenceAnchor → Result AnchorError EvidenceAnchor
validate_shape a = do
  raise_if (leb a.end_offset a.start_offset) end_before_start
  raise_if (any (λ b. b) (git_fields a) && not (every (λ b. b) (git_fields a)))
      git_fields_incomplete
  raise_if (lines_reversed a.line_start a.line_end) line_end_before_start
  ok a

pub record IndependenceFacets : Type 0 where
  pub funding_relationship : FundingRelationship
  pub commercial_relationship : CommercialRelationship
  pub vendor_selected_methodology : Bool
  pub vendor_operated_test : Bool
  pub vendor_reviewed_before_publication : Bool
  pub reproducible_method : Bool
  pub public_environment : Bool

pub record Evidence : Type 0 where
  pub id : String
  pub source_id : String
  pub source_class : SourceClass
  pub maturity : EvidenceMaturity
  pub claim_purpose : ClaimPurpose
  pub anchor : EvidenceAnchor
  pub published_at : Option ℕ
  pub modified_at : Option ℕ
  pub first_seen_at : ℕ
  pub retrieved_at : ℕ
  pub last_seen_at : ℕ
  pub last_verified_at : ℕ
  pub effective_at : Option ℕ
  pub independence_facets : Option IndependenceFacets
  pub derivative_of_evidence_id : Option String
