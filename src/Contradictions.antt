-- ===== src/Contradictions.antt =====
-- src/agentic_security/contradictions/rules.py. `evidence_by_id` is a function; the flags found so
-- far number the next one.
pub mod Flags
pub mod Complete
pub mod Examples
use Prim.Native.String.{◌++◌ as append}
use agentic_sec_blog_publish.Prelude.{
  ℕ, ◌+◌, String, Bool, true, false, not, ◌&&◌, ◌||◌, ◌==◌, Option, none, some, List, [], ◌∷◌, ◌++◌,
  any, length, decimal, if◌then◌else◌, is_same,
}
use agentic_sec_blog_publish.Models.Vocabulary.{
  AssertionState, affirmed, explicitly_unsupported, SubjectType, availability, benchmark_result,
  SubjectType-discrete, SourceClass, p1, p2, r2, i1, ReviewStatus, pending,
}
use agentic_sec_blog_publish.Models.Evidence.{Evidence}
use agentic_sec_blog_publish.Models.Assertions.{Assertion, AssertionScope}
use agentic_sec_blog_publish.Models.Reports.{ContradictionFlag, ContradictionResolution}

abbrev pub Flags : Type 0
Flags = List ContradictionFlag

-- Equality of optional texts.
abbrev pub same_text : Option String → Option String → Bool
same_text none none = true
same_text (some a) (some b) = a == b
same_text _ _ = false

unfoldable pub same_subject : Assertion → Assertion → Bool
same_subject left right =
    left.system_id == right.system_id
    && (same_text left.agent_id right.agent_id
        && (is_same SubjectType-discrete (left.slots).subject_type (right.slots).subject_type
            && (left.slots).subject == (right.slots).subject))

-- `{left.state, right.state} == {AFFIRMED, EXPLICITLY_UNSUPPORTED}`
abbrev pub opposed : AssertionState → AssertionState → Bool
opposed affirmed explicitly_unsupported = true
opposed explicitly_unsupported affirmed = true
opposed _ _ = false

abbrev pub is_availability : SubjectType → Bool
is_availability availability = true
is_availability _ = false

abbrev pub is_benchmark_result : SubjectType → Bool
is_benchmark_result benchmark_result = true
is_benchmark_result _ = false

abbrev pub is_p1 : SourceClass → Bool
is_p1 p1 = true
is_p1 _ = false

abbrev pub is_p2 : SourceClass → Bool
is_p2 p2 = true
is_p2 _ = false

-- `in {R2, I1}`
abbrev pub is_operator_record : SourceClass → Bool
is_operator_record r2 = true
is_operator_record i1 = true
is_operator_record _ = false

abbrev pub state_rule : String
state_rule = "rule:same-subject-conflicting-state"

abbrev pub flag :
    (name : String) → List String → (by rationale : String) → Flags → ContradictionFlag
flag name assertion_ids by rationale flags = record {
  id = append "CONFLICT-" (append name (append "-" (decimal (length flags + 1))));
  assertion_ids = assertion_ids;
  detected_by = by;
  rationale = rationale;
  human_review_required = true;
  status = pending;
}

-- `flags.append(...)` under a test.
unfoldable pub flag_if :
    Bool → (name : String) → List String → (by rationale : String) → Flags → Flags
flag_if test name ids by rationale flags =
    if test then flags ++ (flag name ids by rationale flags ∷ []) else flags

module _ (evidence_by_id : String → Option Evidence) where
  abbrev known : Option Evidence → List Evidence → List Evidence
  known none items = items
  known (some e) items = e ∷ items

  pub evidence_of : List String → List Evidence
  evidence_of [] = []
  evidence_of (id ∷ ids) = known (evidence_by_id id) (evidence_of ids)

  -- `P2 in classes and classes & {R2, I1}`
  abbrev pub mixes_records : Assertion → Assertion → Bool
  mixes_records left right =
      let items = evidence_of (left.evidence_ids ++ right.evidence_ids) in
      any (λ e. is_p2 e.source_class) items && any (λ e. is_operator_record e.source_class) items

  -- The body of the inner loop.
  unfoldable pub flag_pair : Assertion → Assertion → Flags → Flags
  unfolding same_subject
  flag_pair left right flags =
      let ids = left.id ∷ right.id ∷ [] in
      let differs = same_subject left right && not (left.statement == right.statement) in
      flag_if
        (differs && (is_benchmark_result (left.slots).subject_type && mixes_records left right))
        "BENCHMARK" ids "rule:benchmark-claim-vs-operator-record"
        "Vendor benchmark claim differs from an operator or independent record."
        (flag_if (differs && is_availability (left.slots).subject_type) "AVAILABILITY" ids
          "rule:availability-source-conflict"
          "Sources establish incompatible availability descriptions."
          (flag_if (same_subject left right && opposed left.state right.state) "STATE" ids
            state_rule "Same subject has affirmed and explicitly unsupported states." flags))

  unfoldable pub flag_against : Assertion → List Assertion → Flags → Flags
  flag_against left [] flags = flags
  flag_against left (right ∷ rest) flags = flag_against left rest (flag_pair left right flags)

  unfoldable pub flag_pairs : List Assertion → Flags → Flags
  flag_pairs [] flags = flags
  flag_pairs (left ∷ rest) flags = flag_pairs rest (flag_against left rest flags)

  -- The body of the second loop.
  unfoldable pub flag_autonomy : Assertion → Flags → Flags
  flag_autonomy a flags =
      flag_if
        (((a.slots).subject == "remediation" || (a.slots).subject == "autonomous-investigation")
          && (any (λ e. is_p2 e.source_class) (evidence_of a.evidence_ids)
              && any (λ e. is_p1 e.source_class) (evidence_of a.contradicting_evidence_ids)))
        "AUTONOMY" (a.id ∷ []) "rule:autonomy-claim-vs-gate-doc"
        "Official marketing autonomy claim conflicts with primary gate documentation." flags

  unfoldable pub flag_each : List Assertion → Flags → Flags
  flag_each [] flags = flags
  flag_each (a ∷ rest) flags = flag_each rest (flag_autonomy a flags)

  unfoldable pub flag_contradictions : List Assertion → Flags
  flag_contradictions items = flag_each items (flag_pairs items [])

unfoldable pub resolve_conflict :
    ContradictionFlag
    → (resolution_id resolution : String) → AssertionState
    → AssertionScope
    → (reviewer : String) → (reviewed_at : ℕ) → ContradictionResolution
resolve_conflict conflict resolution_id resolution resulting_state resulting_scope reviewer
      reviewed_at =
    record {
      id = resolution_id;
      conflict_id = conflict.id;
      resolution = resolution;
      resulting_state = resulting_state;
      resulting_scope = resulting_scope;
      reviewer = reviewer;
      reviewed_at = reviewed_at;
    }
