-- ===== src/Evidence/Examples.antt =====
-- The validation of evidence at a concrete snapshot.
use agentic_sec_blog_publish.Prelude.{
  chars, text_of, join, ◌≡◌, ◌↔◌, refl, String, none, some, List, [], ◌∷◌, ok, err,
}
use agentic_sec_blog_publish.Models.Vocabulary.{SourceClass, EvidenceMaturity, ClaimPurpose}
use agentic_sec_blog_publish.Models.Sources.{Snapshot}
use agentic_sec_blog_publish.Models.Evidence.{Evidence, EvidenceAnchor}
use agentic_sec_blog_publish.Evidence.{
  validate_evidence_anchor, validate_evidence_classification, quote_not_resolved,
  secondary_too_mature,
}
use agentic_sec_blog_publish.Evidence.Anchors.{Resolves, validate_evidence_anchor_iff}

-- A digest and a splitter for the examples.
abbrev pub digest : String → String
digest text = "00"

abbrev pub lines : String → List String
lines text = "Agents" ∷ "can triage" ∷ []

abbrev pub snapshot : Snapshot
snapshot = record {
  id = "SNAP-1";
  source_id = "SRC-DOCS";
  canonical_uri = "https://docs.example.com/a";
  retrieved_at = 5;
  normalizer_version = "norm-1.0";
  sha256 = "00";
  content_type = "text/html";
  raw_content = "Agents\ncan triage";
  normalized_text = "Agents\ncan triage";
  duplicate_of = none;
  repository = some "docs";
  commit_sha = some "c0";
  file_path = some "a.md";
}

abbrev pub anchor : EvidenceAnchor
anchor = record {
  snapshot_id = "SNAP-1";
  snapshot_sha256 = "00";
  normalizer_version = "norm-1.0";
  document_path = "docs";
  document_heading = "Agents";
  quote = "can triage";
  start_offset = 7;
  end_offset = 17;
  repository = some "docs";
  commit_sha = some "c0";
  file_path = some "a.md";
  line_start = some 2;
  line_end = some 2;
}

abbrev pub evidence : EvidenceAnchor → EvidenceMaturity → Evidence
evidence anchor maturity = record {
  id = "EV-1";
  source_id = "SRC-DOCS";
  source_class = SourceClass.s1;
  maturity = maturity;
  claim_purpose = ClaimPurpose.documentation;
  anchor = anchor;
  published_at = none;
  modified_at = none;
  first_seen_at = 5;
  retrieved_at = 5;
  last_seen_at = 5;
  last_verified_at = 5;
  effective_at = none;
  independence_facets = none;
  derivative_of_evidence_id = none;
}

accepts_quote :
    validate_evidence_anchor digest lines (evidence anchor EvidenceMaturity.e1) snapshot ≡ ok tt
unfolding validate_evidence_anchor chars text_of join
accepts_quote = refl

refuses_shifted_quote :
    validate_evidence_anchor digest lines
      (evidence (record anchor { start_offset = 6 }) EvidenceMaturity.e1)
      snapshot
    ≡ err quote_not_resolved
unfolding validate_evidence_anchor chars text_of join
refuses_shifted_quote = refl

refuses_mature_reporting :
    validate_evidence_classification (evidence anchor EvidenceMaturity.e2)
    ≡ err secondary_too_mature
unfolding validate_evidence_classification
refuses_mature_reporting = refl

validate_evidence_anchor_iff_example :
    (validate_evidence_anchor digest lines (evidence anchor EvidenceMaturity.e1) snapshot ≡ ok tt)
    ↔ Resolves digest lines anchor snapshot
validate_evidence_anchor_iff_example =
    validate_evidence_anchor_iff digest lines (evidence anchor EvidenceMaturity.e1) snapshot
