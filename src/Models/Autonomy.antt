-- ===== src/Models/Autonomy.antt =====
-- AutonomyFacetEvidence, AutonomyAssessment and CapabilityEvidencePanel of
-- src/agentic_security/models.py. The texts of the four facets are the members that
-- `Trigger(...)`, `PermissionScope(...)` and `HumanGate(...)` read from them.
use agentic_sec_blog_publish.Prelude.{
  ℕ, String, Option, List, [], ◌∷◌, ◌==◌, any, every, Result, ok, err, if◌then◌else◌,
}
use agentic_sec_blog_publish.Models.Vocabulary.{
  Trigger, PermissionScope, HumanGate, SupportConfidence, CapabilityEvidenceLevel,
}

pub record FacetEvidence (V : Type 0) : Type 0 where
  pub value : V
  pub evidence_id : String
  pub support_confidence : SupportConfidence
  pub methodology_version : String
  pub last_verified_at : ℕ

pub record AutonomyAssessment : Type 0 where
  pub id : String
  pub system_id : String
  pub agent_id : Option String
  pub trigger : FacetEvidence Trigger
  pub persistence : FacetEvidence String
  pub permission_scope : FacetEvidence PermissionScope
  pub human_gate : FacetEvidence HumanGate
  pub action_human_gates : List (String × FacetEvidence HumanGate)

abbrev pub approved_gates : List String
approved_gates =
    "alert-triage" ∷ "autonomous-investigation" ∷ "attack-simulation" ∷ "remediation"
    ∷ "detection-authoring" ∷ "vulnerability-validation" ∷ []

-- `AutonomyAssessment.controlled_gate_categories`; the error carries nothing.
unfoldable pub controlled_gate_categories :
    AutonomyAssessment → Result (Unit {0}) AutonomyAssessment
controlled_gate_categories a =
    if every (λ gate. any (λ name. gate.0 == name) approved_gates) a.action_human_gates
    then ok a
    else err tt

pub record CapabilityEvidencePanel : Type 0 where
  pub capability_id : String
  pub vendor_documentation : CapabilityEvidenceLevel
  pub public_demonstration : CapabilityEvidenceLevel
  pub independent_validation : CapabilityEvidenceLevel
  pub production_effectiveness : CapabilityEvidenceLevel
  pub methodology_version : String
  pub rationale : String
