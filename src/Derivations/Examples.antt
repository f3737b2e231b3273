-- ===== src/Derivations/Examples.antt =====
-- The laws of the derivations at concrete evidence.
use agentic_sec_blog_publish.Prelude.{
  ℕ, ◌≤◌, String, ◌≡◌, ◌⊎◌, refl, Bool, true, false, none, some, List, [], ◌∷◌, Memᴰ,
}
use agentic_sec_blog_publish.Models.Vocabulary.{
  SourceClass, EvidenceMaturity, ClaimPurpose, SupportConfidence, fresh, Trigger, PermissionScope,
  HumanGate, FundingRelationship, CommercialRelationship, CapabilityEvidenceLevel,
  AvailabilityState,
}
use agentic_sec_blog_publish.Models.Evidence.{Evidence, EvidenceAnchor, IndependenceFacets}
use agentic_sec_blog_publish.Models.Autonomy.{FacetEvidence, AutonomyAssessment}
use agentic_sec_blog_publish.Models.Assertions.{Observation}
use agentic_sec_blog_publish.Derivations.Support.{derive_support_confidence}
use agentic_sec_blog_publish.Derivations.Support.Rubric.{confidence, support_mono}
use agentic_sec_blog_publish.Derivations.Panel.{derive_capability_evidence_panel}
use agentic_sec_blog_publish.Derivations.Panel.Rows.{panel-validated, Validates}

abbrev anchor : EvidenceAnchor
anchor = record {
  snapshot_id = "SNAP-1";
  snapshot_sha256 = "00";
  normalizer_version = "n1";
  document_path = "docs";
  document_heading = "Agents";
  quote = "can triage";
  start_offset = 0;
  end_offset = 10;
  repository = none;
  commit_sha = none;
  file_path = none;
  line_start = none;
  line_end = none;
}

abbrev facets : IndependenceFacets
facets = record {
  funding_relationship = FundingRelationship.none_given;
  commercial_relationship = CommercialRelationship.customer;
  vendor_selected_methodology = false;
  vendor_operated_test = false;
  vendor_reviewed_before_publication = false;
  reproducible_method = true;
  public_environment = true;
}

abbrev item : String → SourceClass → EvidenceMaturity → Evidence
item id class level = record {
  id = id;
  source_id = "SRC-1";
  source_class = class;
  maturity = level;
  claim_purpose = ClaimPurpose.independent_validation;
  anchor = anchor;
  published_at = none;
  modified_at = none;
  first_seen_at = 1;
  retrieved_at = 1;
  last_seen_at = 1;
  last_verified_at = 1;
  effective_at = none;
  independence_facets = some facets;
  derivative_of_evidence_id = none;
}

abbrev official : Evidence
official = item "EV-1" SourceClass.p1 EvidenceMaturity.e1

abbrev validation : Evidence
validation = item "EV-2" SourceClass.i1 EvidenceMaturity.e3

abbrev community : Evidence
community = item "EV-3" SourceClass.c1 EvidenceMaturity.e1

abbrev copied : Evidence
copied = record validation { derivative_of_evidence_id = some "EV-1" }

support_mono_example :
    confidence (derive_support_confidence (validation ∷ []) fresh false)
    ≤ confidence (derive_support_confidence (community ∷ validation ∷ official ∷ []) fresh false)
support_mono_example =
    support_mono (validation ∷ []) (community ∷ validation ∷ official ∷ []) fresh false false
      (Memᴰ.tail (Memᴰ.head refl), tt) (λ h. h)

abbrev facet : {V : Type 0} → V → FacetEvidence V
facet v = record {
  value = v;
  evidence_id = "EV-1";
  support_confidence = SupportConfidence.high;
  methodology_version = "ASI-1.0";
  last_verified_at = 1;
}

abbrev assessment : AutonomyAssessment
assessment = record {
  id = "AUT-1";
  system_id = "SYS-1";
  agent_id = none;
  trigger = facet Trigger.continuous;
  persistence = facet "PERSISTENT";
  permission_scope = facet PermissionScope.broad_write;
  human_gate = facet HumanGate.notify_only;
  action_human_gates = ("remediation", facet HumanGate.pre_action) ∷ [];
}

abbrev observation : String → ℕ → Bool → Observation
observation id at accepted = record {
  id = id;
  assertion_id = "A-1";
  evidence_id = "EV-1";
  observed_statement = "supports triage";
  observed_at = at;
  published_at = none;
  modified_at = none;
  first_seen_at = at;
  retrieved_at = at;
  last_seen_at = at;
  last_verified_at = at;
  effective_at = none;
  is_paraphrase = false;
  accepted = accepted;
  scope = record {
    license_tier = "E5";
    availability = AvailabilityState.ga;
    regions = [];
    conditions = [];
  };
}

abbrev observations : List Observation
observations = observation "O-1" 3 true ∷ observation "O-2" 7 true ∷ observation "O-3" 9 false ∷ []

panel-validated_example :
    ((derive_capability_evidence_panel "CAP-1"
        (official ∷ validation ∷ [])
        "ASI-1.0").independent_validation
      ≡ CapabilityEvidenceLevel.none_found)
    ⊎ (((derive_capability_evidence_panel "CAP-1"
            (official ∷ validation ∷ [])
            "ASI-1.0").independent_validation
          ≡ CapabilityEvidenceLevel.high)
        × ((e : Evidence) × Memᴰ e (official ∷ validation ∷ [])
            × ((f : IndependenceFacets) × Validates e f)))
panel-validated_example = panel-validated "CAP-1" (official ∷ validation ∷ []) "ASI-1.0"
