-- ===== src/Evidence.antt =====
-- src/agentic_security/evidence/validation.py: evidence against the snapshot that it quotes, against
-- the limits of its class, and against the policy of its source.
pub mod Anchors
pub mod Limits
pub mod Examples
use agentic_sec_blog_publish.Prelude.{
  ℕ, ◌-◌, String, Bool, true, false, not, ◌&&◌, ◌||◌, ◌==◌, Option, none, some, List, [], ◌∷◌, ltb,
  any, every, is_same, if◌then◌else◌, join, sublist, text_slice, text_length, Result, ok, err,
  ◌>>=◌, ◌>>◌, raise_if,
}
use agentic_sec_blog_publish.Models.Vocabulary.{
  EvidenceMaturity, e0, e1, e4, e5, SourceClass, s1, CommercialRelationship, ClaimPurpose,
  ClaimPurpose-discrete,
}
use agentic_sec_blog_publish.Models.Sources.{Source, Snapshot, is_self, is_output}
use agentic_sec_blog_publish.Models.Evidence.{
  Evidence, EvidenceAnchor, IndependenceFacets, git_fields,
}

-- `content_sha256` of normalization.py, where `hexdigest` is hashlib's digest of a text's UTF-8.
unfoldable pub content_sha256 : (hexdigest : String → String) → String → String
content_sha256 hexdigest normalized_text = hexdigest normalized_text

pub data EvidenceError : Type 0 where
  wrong_snapshot wrong_hash wrong_normalizer : EvidenceError
  offset_beyond_end quote_not_resolved : EvidenceError
  git_anchor_incomplete git_anchor_mismatch git_lines_not_resolved : EvidenceError
  vendor_self_too_mature derivative_too_mature secondary_too_mature : EvidenceError
  self_or_output purpose_prohibited purpose_not_allowed : EvidenceError

-- `a == b` between values of which either may be None.
abbrev pub same_option : Option String → Option String → Bool
same_option none none = true
same_option (some a) (some b) = a == b
same_option _ _ = false

-- `"\n".join(lines[line_start - 1 : line_end])`. Field(ge=1) keeps both lines above 0.
abbrev pub line_quote : List String → Option ℕ → Option ℕ → String
line_quote lines (some first) (some last) = join "\n" (sublist (first - 1) last lines)
line_quote lines _ _ = ""

module _ (hexdigest : String → String) (splitlines : String → List String) where
  -- The checks of the git provenance.
  unfoldable pub validate_git :
      EvidenceAnchor → Snapshot → Option String → Result EvidenceError (Unit {0})
  validate_git anchor snapshot none =
      raise_if (any (λ b. b) (git_fields anchor)) git_anchor_mismatch
  validate_git anchor snapshot (some repository) = do
    raise_if (not (every (λ b. b) (git_fields anchor))) git_anchor_incomplete
    raise_if
        (not (same_option anchor.repository snapshot.repository)
          || (not (same_option anchor.commit_sha snapshot.commit_sha)
              || not (same_option anchor.file_path snapshot.file_path)))
        git_anchor_mismatch
    raise_if
        (not (
          line_quote (splitlines snapshot.normalized_text) anchor.line_start anchor.line_end
          == anchor.quote))
        git_lines_not_resolved

  unfoldable pub validate_evidence_anchor : Evidence → Snapshot → Result EvidenceError (Unit {0})
  unfolding validate_git content_sha256
  validate_evidence_anchor evidence snapshot =
      let anchor = evidence.anchor in
      let actual_hash = content_sha256 hexdigest snapshot.normalized_text in
      do
        raise_if (not (anchor.snapshot_id == snapshot.id)) wrong_snapshot
        raise_if
            (not (snapshot.sha256 == actual_hash) || not (anchor.snapshot_sha256 == actual_hash))
            wrong_hash
        raise_if (not (anchor.normalizer_version == snapshot.normalizer_version)) wrong_normalizer
        raise_if (ltb (text_length snapshot.normalized_text) anchor.end_offset) offset_beyond_end
        raise_if
            (not (
              text_slice anchor.start_offset anchor.end_offset snapshot.normalized_text
              == anchor.quote))
            quote_not_resolved
        validate_git anchor snapshot snapshot.repository

-- `evidence.maturity in {E4, E5}`
abbrev pub is_e4_or_e5 : EvidenceMaturity → Bool
is_e4_or_e5 e4 = true
is_e4_or_e5 e5 = true
is_e4_or_e5 _ = false

-- `evidence.maturity in {E0, E1}`
abbrev pub is_e0_or_e1 : EvidenceMaturity → Bool
is_e0_or_e1 e0 = true
is_e0_or_e1 e1 = true
is_e0_or_e1 _ = false

abbrev pub is_vendor_self : Option IndependenceFacets → Bool
is_vendor_self none = false
is_vendor_self (some facets) = is_vendor_trade facets.commercial_relationship
  where
    is_vendor_trade : CommercialRelationship → Bool
    is_vendor_trade CommercialRelationship.vendor_self = true
    is_vendor_trade _ = false

-- Whether the id of what the evidence derives from is given and not empty.
abbrev pub is_derivative : Option String → Bool
is_derivative none = false
is_derivative (some id) = not (id == "")

abbrev pub is_secondary : SourceClass → Bool
is_secondary s1 = true
is_secondary _ = false

unfoldable pub validate_evidence_classification : Evidence → Result EvidenceError (Unit {0})
validate_evidence_classification evidence = do
  raise_if (is_vendor_self evidence.independence_facets && is_e4_or_e5 evidence.maturity)
      vendor_self_too_mature
  raise_if (is_derivative evidence.derivative_of_evidence_id && not (is_e0_or_e1 evidence.maturity))
      derivative_too_mature
  raise_if (is_secondary evidence.source_class && not (is_e0_or_e1 evidence.maturity))
      secondary_too_mature

-- `purpose in purposes`
abbrev pub has_purpose : ClaimPurpose → List ClaimPurpose → Bool
has_purpose purpose purposes = any (is_same ClaimPurpose-discrete purpose) purposes

unfoldable pub validate_evidence_purpose : Evidence → Source → Result EvidenceError (Unit {0})
validate_evidence_purpose evidence source = do
  raise_if (is_output source.role || is_self source.trust_class) self_or_output
  raise_if (has_purpose evidence.claim_purpose source.policy.prohibited_claim_purposes)
      purpose_prohibited
  raise_if (not (has_purpose evidence.claim_purpose source.policy.allowed_claim_purposes))
      purpose_not_allowed
