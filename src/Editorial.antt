-- ===== src/Editorial.antt =====
-- src/agentic_security/editorial/: claim checks, the editorial risk, the daily brief and the weekly
-- pack. The two regular expressions, `date.isoformat` and the rendering of a trend result are
-- arguments; a set of impacts or a mapping is the list of its members.
pub mod Status
pub mod Weekly
pub mod Examples
use Prim.Native.String.{◌++◌ as append}
use agentic_sec_blog_publish.Prelude.{
  ℕ, String, Bool, true, false, not, ◌&&◌, ◌||◌, Option, none, some, List, [], ◌∷◌, ◌++◌, map, any,
  select, is_some, is_empty, is_member, join, order_by, text_leb, if◌then◌else◌, Result, ok, err,
  raise_if,
}
use agentic_sec_blog_publish.Models.Vocabulary.{
  EditorialRisk, DailyStatus, material_changes, no_reviewed_content, no_material_change,
  no_confirmed_material_change, review_pending, DecisionImpact, deployment, authorization,
  architecture, risk, procurement, operations, evaluation, Freshness, stale, revalidation_required,
}
use agentic_sec_blog_publish.Models.Evidence.{Evidence}
use agentic_sec_blog_publish.Models.Changes.{
  MaterialChange, StructuredDiff, ChangeReviewItem, is_pending,
}
use agentic_sec_blog_publish.Models.Reports.{
  ClaimCheck, ContradictionFlag, DailyBrief, WeeklyEvidencePack,
}

abbrev pub is_high : EditorialRisk → Bool
is_high EditorialRisk.high = true
is_high _ = false

module _ (finds_high finds_medium : String → Bool) where
  unfoldable pub classify_editorial_risk : String → EditorialRisk
  classify_editorial_risk text =
      if finds_high text
      then EditorialRisk.high
      else if finds_medium text
      then EditorialRisk.medium
      else EditorialRisk.low

  -- The error carries nothing.
  unfoldable pub require_human_review :
      String → (human_approved : Bool) → Result (Unit {0}) (Unit {0})
  unfolding classify_editorial_risk
  require_human_review text human_approved =
      raise_if (is_high (classify_editorial_risk text) && not human_approved) tt

module _ (evidence_ids_by_claim : String → List String)
    (evidence_by_id : String → Option Evidence) where
  abbrev pub available : String → List String
  available claim = select (λ id. is_some (evidence_by_id id)) (evidence_ids_by_claim claim)

  abbrev pub check_claim : String → ClaimCheck
  check_claim claim = record {
    claim = claim;
    evidence_ids = available claim;
    supported = not (is_empty (available claim));
    rationale =
        if not (is_empty (available claim))
        then "Claim has traceable evidence."
        else "Unsupported factual claim: no traceable evidence.";
  }

  unfoldable pub verify_claims : List String → List ClaimCheck
  verify_claims claims = map check_claim claims

abbrev pub confirmed_changes : List MaterialChange → List MaterialChange
confirmed_changes = select (λ item. item.human_confirmed)

abbrev pub surviving_candidates : List StructuredDiff → List StructuredDiff
surviving_candidates = select (λ item. item.material_candidate)

abbrev pub completed_candidate_ids : List ChangeReviewItem → List String
completed_candidate_ids reviews =
    map (λ item. item.candidate_id) (select (λ item. not (is_pending item.status)) reviews)

unfoldable pub daily_status :
    List MaterialChange
    → List StructuredDiff
    → List ChangeReviewItem
    → (reviewed_content_available : Bool) → DailyStatus
daily_status changes candidates reviews reviewed_content_available =
    let surviving = surviving_candidates candidates in
    if not (is_empty (confirmed_changes changes))
    then material_changes
    else if not (is_empty surviving)
        && any (λ item. not (is_member item.id (completed_candidate_ids reviews))) surviving
    then review_pending
    else if not (is_empty surviving)
    then no_confirmed_material_change
    else if not reviewed_content_available
    then no_reviewed_content
    else no_material_change

abbrev pub impact_text : DecisionImpact → String
impact_text deployment = "DEPLOYMENT"
impact_text authorization = "AUTHORIZATION"
impact_text architecture = "ARCHITECTURE"
impact_text risk = "RISK"
impact_text procurement = "PROCUREMENT"
impact_text operations = "OPERATIONS"
impact_text evaluation = "EVALUATION"

abbrev pub change_lines : List MaterialChange → List String
change_lines [] = []
change_lines (change ∷ rest) =
    ""
    ∷ append "### " change.description
    ∷ append "- Decision impact: "
        (join ", " (order_by text_leb (map impact_text change.decision_impacts)))
    ∷ append "- Assertions: " (join ", " change.assertion_ids)
    ∷ change_lines rest

-- The section under "## Material Changes".
abbrev pub status_lines : DailyStatus → List MaterialChange → List String
status_lines no_reviewed_content confirmed =
    "" ∷ "## No Reviewed Content" ∷ ""
    ∷ "The initialized ledger contains no reviewed systems or change candidates. This is not an observation that tracked systems remained unchanged."
    ∷ []
status_lines no_material_change confirmed =
    "" ∷ "## No Material Change" ∷ "" ∷ "No material capability or control change observed." ∷ []
status_lines no_confirmed_material_change confirmed =
    "" ∷ "## No Confirmed Material Change" ∷ ""
    ∷ "Candidates were reviewed; none were confirmed as material." ∷ []
status_lines review_pending confirmed =
    "" ∷ "## Review Pending" ∷ "" ∷ "Surviving change candidates await completed human review." ∷ []
status_lines material_changes confirmed = change_lines confirmed

abbrev pub closing_sections : List String
closing_sections =
    "" ∷ "## Control/Autonomy Changes" ∷ "" ∷ "## Availability & Lifecycle Changes" ∷ ""
    ∷ "## Capability Changes" ∷ "" ∷ "## Research & Benchmark Changes" ∷ ""
    ∷ "## Evidence Conflicts" ∷ "" ∷ "## Why It Matters" ∷ "" ∷ "## Sources" ∷ []

unfoldable pub build_daily_brief :
    (isoformat : ℕ → String)
    → (day : ℕ) → List MaterialChange
    → List StructuredDiff
    → List ChangeReviewItem
    → (reviewed_content_available : Bool) → DailyBrief
unfolding daily_status
build_daily_brief isoformat day changes candidates reviews reviewed_content_available =
    let confirmed = confirmed_changes changes in
    let status = daily_status changes candidates reviews reviewed_content_available in
    let lines =
      (append "# Agentic Security Change Brief — " (isoformat day)
        ∷ ""
        ∷ "## Material Changes"
        ∷ [])
      ++ status_lines status confirmed
      ++ closing_sections in
    record {
      date = day;
      markdown = append (join "\n" lines) "\n";
      confirmed_change_ids = map (λ item. item.id) confirmed;
      status = status;
    }
