-- ===== src/Storage/ReadModels/Examples.antt =====
-- Reads after a write.
use agentic_sec_blog_publish.Prelude.{
  ◌≡◌, refl, true, not, some, [], ◌∷◌, ◌++◌, select, if◌then◌else◌, order_by, text_leb, join, ok,
}
use agentic_sec_blog_publish.Models.Vocabulary.{
  AvailabilityState, AssertionState, pending, confirmed, ChangeClassification-discrete,
  EvidenceMaturity,
}
use agentic_sec_blog_publish.Models.Assertions.{Assertion}
use agentic_sec_blog_publish.Models.Reports.{ContradictionFlag, ContradictionResolution}
use agentic_sec_blog_publish.Contradictions.Examples.{claim}
use agentic_sec_blog_publish.Evidence.Examples.{anchor, evidence}
use agentic_sec_blog_publish.Storage.{Ledger, history}
use agentic_sec_blog_publish.Storage.Reviews.{
  add_review, preserves_proposal, same_proposal, passes_checks,
}
use agentic_sec_blog_publish.Storage.Claims.{key_has, add_assertion, by_key, add_resolution}
use agentic_sec_blog_publish.Storage.Sound.{IsSound, proposal}
use agentic_sec_blog_publish.Storage.ReadModels.{conflicts, latest_reviews, succeeds}
use agentic_sec_blog_publish.Storage.ReadModels.Latest.{
  conflicts-add_resolution, by_key-add_assertion, latest_reviews-add_review,
}
use agentic_sec_blog_publish.Storage.Examples.{lib, start, proposed, decided}

abbrev asserted : Assertion
asserted = claim "ASRT-1" AssertionState.affirmed

abbrev ready : Ledger
ready = record start {
  taxonomy_versions = "T-1" ∷ [];
  systems = "SYS-1" ∷ [];
  evidence = evidence anchor EvidenceMaturity.e1 ∷ [];
}

abbrev with_assertion : Ledger
with_assertion = record ready {
  assertions = asserted ∷ [];
  assertion_evidence =
      record { assertion_id = "ASRT-1"; evidence_id = "EV-1"; supports = true } ∷ [];
}

stores_assertion : add_assertion asserted ready ≡ ok with_assertion
unfolding add_assertion
stores_assertion = refl

by_key-add_assertion_example :
    by_key "ASRT-1" with_assertion
    ≡ (if key_has "ASRT-1" asserted then some asserted else by_key "ASRT-1" ready)
by_key-add_assertion_example =
    by_key-add_assertion asserted ready with_assertion "ASRT-1" stores_assertion

abbrev raised_flag : ContradictionFlag
raised_flag = record {
  id = "CF-1";
  assertion_ids = "ASRT-1" ∷ [];
  detected_by = "rules";
  rationale = "opposed";
  human_review_required = true;
  status = pending;
}

abbrev flagged : Ledger
flagged = record start {
  contradiction_flags = record { status = pending; payload = raised_flag } ∷ [];
}

abbrev resolution : ContradictionResolution
resolution = record {
  id = "CR-1";
  conflict_id = "CF-1";
  resolution = "scoped";
  resulting_state = AssertionState.affirmed;
  resulting_scope = record {
    license_tier = "all";
    availability = AvailabilityState.ga;
    regions = [];
    conditions = [];
  };
  reviewer = "reviewer";
  reviewed_at = 9;
}

abbrev resolved : Ledger
resolved = record flagged {
  contradiction_flags = record { status = confirmed; payload = raised_flag } ∷ [];
  contradiction_resolutions = resolution ∷ [];
}

stores_resolution : add_resolution resolution flagged ≡ ok resolved
unfolding add_resolution
stores_resolution = refl

conflicts-add_resolution_example : conflicts resolved ≡ conflicts flagged
conflicts-add_resolution_example =
    conflicts-add_resolution resolution flagged resolved stores_resolution

abbrev reviewed : Ledger
reviewed = record start { reviews = proposed ∷ [] }

reviewed-IsSound : IsSound lib reviewed
unfolding history
reviewed-IsSound = record {
  evidence = tt;
  reviews = (proposal refl refl, tt);
  reviewed_in_order = (proposal refl refl, tt);
  changes = tt;
  histories = λ type id. tt;
}

abbrev with_decision : Ledger
with_decision = record start { reviews = proposed ∷ decided ∷ [] }

stores_decision : add_review lib decided reviewed ≡ ok with_decision
unfolding add_review preserves_proposal same_proposal passes_checks ChangeClassification-discrete
    order_by text_leb join
stores_decision = refl

latest_reviews-add_review_example :
    latest_reviews with_decision
    ≡ select (λ x. not (succeeds x.id decided)) (latest_reviews reviewed) ++ (decided ∷ [])
latest_reviews-add_review_example =
    latest_reviews-add_review lib decided reviewed with_decision reviewed-IsSound stores_decision
