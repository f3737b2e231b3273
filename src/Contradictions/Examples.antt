-- ===== src/Contradictions/Examples.antt =====
-- The laws of the contradiction rules at two concrete assertions.
use agentic_sec_blog_publish.Prelude.{String, ◌≡◌, refl, true, Option, none, [], ◌∷◌, any}
use agentic_sec_blog_publish.Models.Vocabulary.{
  AssertionState, SupportConfidence, SubjectType, SubjectType-discrete,
}
use agentic_sec_blog_publish.Models.Evidence.{Evidence}
use agentic_sec_blog_publish.Models.Assertions.{Assertion}
use agentic_sec_blog_publish.Contradictions.{flag_contradictions, same_subject}
use agentic_sec_blog_publish.Contradictions.Complete.{is_state_flag, flag_contradictions_complete}

abbrev pub claim : String → AssertionState → Assertion
claim id state = record {
  id = id;
  assertion_key = id;
  taxonomy_version = "T-1";
  system_id = "SYS-1";
  agent_id = none;
  slots = record {
    system = "SYS-1";
    agent = none;
    subject_type = SubjectType.capability;
    subject = "triage";
    action = "perform";
    object = id;
    scope_key = "default";
  };
  statement = "It triages.";
  canonical_rendering = "It triages.";
  state = state;
  support_confidence = SupportConfidence.high;
  support_confidence_rationale = "official";
  published_at = none;
  modified_at = none;
  first_seen_at = 1;
  retrieved_at = 1;
  last_seen_at = 1;
  first_observed_at = 1;
  last_verified_at = 1;
  effective_at = none;
  methodology_version = "ASI-1.0";
  evidence_ids = "EV-1" ∷ [];
  contradicting_evidence_ids = [];
  superseded_by = none;
}

abbrev yes_claim : Assertion
yes_claim = claim "A-1" AssertionState.affirmed

abbrev no_claim : Assertion
no_claim = claim "A-2" AssertionState.explicitly_unsupported

abbrev no_evidence : String → Option Evidence
no_evidence id = none

same : same_subject yes_claim no_claim ≡ true
unfolding same_subject SubjectType-discrete
same = refl

flag_contradictions_complete_example :
    any (is_state_flag "A-1" "A-2") (flag_contradictions no_evidence (yes_claim ∷ no_claim ∷ []))
    ≡ true
flag_contradictions_complete_example =
    flag_contradictions_complete no_evidence yes_claim no_claim [] [] [] same refl
