-- ===== src/Derivations/Panel.antt =====
-- `derive_capability_evidence_panel` of src/agentic_security/derivations.py.
pub mod Rows
use agentic_sec_blog_publish.Prelude.{
  ℕ, String, Bool, true, false, not, ◌&&◌, Option, none, some, List, leb, if◌then◌else◌, is_empty,
  select,
}
use agentic_sec_blog_publish.Models.Vocabulary.{
  SourceClass, EvidenceMaturity, ClaimPurpose, IndependenceDesignation, CapabilityEvidenceLevel, p1,
  p2, e0, e1, e2, e3, e4, e5, independent_validation,
}
use agentic_sec_blog_publish.Models.Evidence.{IndependenceFacets, Evidence}
use agentic_sec_blog_publish.Models.Autonomy.{CapabilityEvidencePanel}
use agentic_sec_blog_publish.Derivations.Independence.{derive_independence}

abbrev pub maturity_level : EvidenceMaturity → ℕ
maturity_level e0 = 0
maturity_level e1 = 1
maturity_level e2 = 2
maturity_level e3 = 3
maturity_level e4 = 4
maturity_level e5 = 5

abbrev pub is_documentation : ClaimPurpose → Bool
is_documentation ClaimPurpose.documentation = true
is_documentation _ = false

abbrev pub is_demonstration : ClaimPurpose → Bool
is_demonstration ClaimPurpose.demonstration = true
is_demonstration _ = false

abbrev pub is_validation : ClaimPurpose → Bool
is_validation ClaimPurpose.independent_validation = true
is_validation _ = false

abbrev pub is_effectiveness : ClaimPurpose → Bool
is_effectiveness ClaimPurpose.effectiveness = true
is_effectiveness _ = false

-- `in {P1, P2}`
abbrev pub is_vendor_source : SourceClass → Bool
is_vendor_source p1 = true
is_vendor_source p2 = true
is_vendor_source _ = false

abbrev pub is_independent : IndependenceDesignation → Bool
is_independent IndependenceDesignation.independent = true
is_independent _ = false

abbrev independent_facets : Option IndependenceFacets → Bool
independent_facets none = false
independent_facets (some f) = is_independent (derive_independence f)

abbrev public_facets : Option IndependenceFacets → Bool
public_facets none = false
public_facets (some f) = f.public_environment

abbrev pub is_vendor_documentation : Evidence → Bool
is_vendor_documentation e =
    is_documentation e.claim_purpose
    && (leb 1 (maturity_level e.maturity) && is_vendor_source e.source_class)

abbrev pub is_public_demonstration : Evidence → Bool
is_public_demonstration e = is_demonstration e.claim_purpose && leb 2 (maturity_level e.maturity)

abbrev pub is_independent_validation : Evidence → Bool
is_independent_validation e =
    is_validation e.claim_purpose
    && (leb 3 (maturity_level e.maturity) && independent_facets e.independence_facets)

abbrev pub is_production_effectiveness : Evidence → Bool
is_production_effectiveness e =
    is_effectiveness e.claim_purpose
    && (leb 4 (maturity_level e.maturity)
        && (independent_facets e.independence_facets && public_facets e.independence_facets))

abbrev pub row : Bool → CapabilityEvidenceLevel → CapabilityEvidenceLevel → CapabilityEvidenceLevel
row found level otherwise = if found then level else otherwise

unfoldable pub derive_capability_evidence_panel :
    String → List Evidence → (methodology_version : String) → CapabilityEvidencePanel
derive_capability_evidence_panel capability_id items methodology_version = record {
  capability_id = capability_id;
  vendor_documentation =
      row (not (is_empty (select is_vendor_documentation items))) CapabilityEvidenceLevel.high
        CapabilityEvidenceLevel.none_found;
  public_demonstration =
      row (not (is_empty (select is_public_demonstration items))) CapabilityEvidenceLevel.medium
        CapabilityEvidenceLevel.none_found;
  independent_validation =
      row (not (is_empty (select is_independent_validation items))) CapabilityEvidenceLevel.high
        CapabilityEvidenceLevel.none_found;
  production_effectiveness =
      row (not (is_empty (select is_production_effectiveness items))) CapabilityEvidenceLevel.medium
        CapabilityEvidenceLevel.unknown;
  methodology_version = methodology_version;
  rationale =
      "Rows represent evidence categories; assertion support confidence is intentionally not rendered beside the capability name.";
}
