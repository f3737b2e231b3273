-- ===== src/Changes/Classification.antt =====
-- `classify_diff` of src/agentic_security/changes/detection.py. `str.lower` is an argument.
pub mod Outcome
use Prim.Native.String.{◌++◌ as append}
use agentic_sec_blog_publish.Prelude.{
  String, Bool, true, false, not, ◌&&◌, Option, none, some, List, [], ◌∷◌, ◌++◌, if◌then◌else◌,
  contains, contains_any, join,
}
use agentic_sec_blog_publish.Models.Vocabulary.{
  ChangeClassification, capability_addition, capability_removal, control_change,
  autonomy_facet_change, availability_lifecycle_change, architecture_change, model_change,
  agent_addition, agent_removal, permission_change, trigger_change, approval_change,
  benchmark_result_change, evidence_status_change, documentation_deprecation, not_material,
  DecisionImpact, deployment, authorization, architecture, risk, procurement, operations,
  evaluation, EvidenceStatusChangeSubtype, independent_validation_added, evidence_maturity_changed,
  evidence_contradiction_added,
}
use agentic_sec_blog_publish.Models.Changes.{StructuredDiff}

-- The classification, the decision impacts and the rationale.
pub record Proposal : Type 0 where
  pub classification : ChangeClassification
  pub impacts : List DecisionImpact
  pub rationale : String

pub record Rule : Type 0 where
  pub keywords : List String
  pub classification : ChangeClassification
  pub impacts : List DecisionImpact

abbrev rule : List String → ChangeClassification → List DecisionImpact → Rule
rule keywords classification impacts = record {
  keywords = keywords;
  classification = classification;
  impacts = impacts;
}

abbrev pub proposal : ChangeClassification → List DecisionImpact → String → Proposal
proposal classification impacts rationale = record {
  classification = classification;
  impacts = impacts;
  rationale = rationale;
}

abbrev pub rules : List Rule
rules =
    rule ("generally available" ∷ " ga " ∷ "public preview" ∷ "private preview" ∷ [])
      availability_lifecycle_change (deployment ∷ procurement ∷ [])
    ∷ rule ("new agent" ∷ "agent added" ∷ "verification agent" ∷ "specialized agent" ∷ [])
        agent_addition (architecture ∷ risk ∷ [])
    ∷ rule ("approval" ∷ "human gate" ∷ "pre-action" ∷ "post-action" ∷ []) approval_change
        (authorization ∷ operations ∷ [])
    ∷ rule ("permission" ∷ "read-only" ∷ "write access" ∷ "authorization" ∷ []) permission_change
        (authorization ∷ risk ∷ [])
    ∷ rule ("trigger" ∷ "event-driven" ∷ "scheduled" ∷ "continuous" ∷ []) trigger_change
        (operations ∷ risk ∷ [])
    ∷ rule ("benchmark" ∷ "score" ∷ "success rate" ∷ []) benchmark_result_change
        (evaluation ∷ procurement ∷ [])
    ∷ rule ("architecture" ∷ "supervisor" ∷ "multi-agent" ∷ "orchestration" ∷ [])
        architecture_change (architecture ∷ risk ∷ [])
    ∷ rule ("model" ∷ "llm" ∷ "foundation model" ∷ []) model_change (architecture ∷ evaluation ∷ [])
    ∷ rule ("deprecated" ∷ "retired" ∷ "end of support" ∷ []) documentation_deprecation
        (deployment ∷ procurement ∷ [])
    ∷ rule ("autonomy" ∷ "persistent" ∷ "session-bound" ∷ []) autonomy_facet_change
        (authorization ∷ operations ∷ [])
    ∷ rule ("capability" ∷ "can now" ∷ "supports" ∷ "triage" ∷ "investigate" ∷ "remediate" ∷ [])
        capability_addition (operations ∷ evaluation ∷ [])
    ∷ []

abbrev pub subtype_text : EvidenceStatusChangeSubtype → String
subtype_text independent_validation_added = "INDEPENDENT_VALIDATION_ADDED"
subtype_text evidence_maturity_changed = "EVIDENCE_MATURITY_CHANGED"
subtype_text evidence_contradiction_added = "EVIDENCE_CONTRADICTION_ADDED"

abbrev pub fallback : Proposal
fallback =
    proposal control_change (architecture ∷ [])
      "Surviving structured change requires analyst classification."

-- The loop over the rules.
pub match_rules : List Rule → (padded : String) → Proposal
match_rules [] padded = fallback
match_rules (r ∷ rest) padded =
    let later = match_rules rest padded in
    if contains_any padded r.keywords
    then proposal r.classification r.impacts
        (append "Matched deterministic keywords: " (append (join ", " r.keywords) "."))
    else later

abbrev pub capability_words : List String
capability_words = "capability" ∷ "supports" ∷ "can " ∷ []

module _ (lower : String → String) where
  abbrev pub lowered : List String → String
  lowered lines = lower (join " " lines)

  -- `f" {text} "`
  abbrev pub padded : StructuredDiff → String
  padded diff = append " " (append (lowered (diff.added ++ diff.removed)) " ")

  pub classify_text : StructuredDiff → Proposal
  unfolding match_rules
  classify_text diff =
      let removed_text = lowered diff.removed in
      let added_text = lowered diff.added in
      if contains removed_text "agent" && not (contains added_text "agent")
      then proposal agent_removal (architecture ∷ risk ∷ [])
          "Agent terminology was removed without a replacement."
      else if contains_any removed_text capability_words
          && not (contains_any added_text capability_words)
      then proposal capability_removal (operations ∷ risk ∷ [])
          "Capability language was removed without a replacement."
      else match_rules rules (padded diff)

  abbrev pub classify_surviving : StructuredDiff → Option EvidenceStatusChangeSubtype → Proposal
  classify_surviving diff (some subtype) =
      proposal evidence_status_change (evaluation ∷ procurement ∷ [])
        (append "Evidence establishment changed: " (append (subtype_text subtype) "."))
  classify_surviving diff none = classify_text diff

  unfoldable pub classify_diff : StructuredDiff → Proposal
  unfolding classify_text
  classify_diff diff =
      if not diff.material_candidate
      then proposal not_material [] "Filtered deterministic non-material change."
      else classify_surviving diff diff.evidence_status_subtype
