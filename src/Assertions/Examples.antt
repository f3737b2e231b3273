-- ===== src/Assertions/Examples.antt =====
-- The laws of the assertion ledger at concrete claims.
use agentic_sec_blog_publish.Prelude.{String, ◌≡◌, refl, true, false, none, some, [], ◌∷◌, ok, err}
use agentic_sec_blog_publish.Models.Vocabulary.{
  AssertionState, SupportConfidence, AvailabilityState, SubjectType,
}
use agentic_sec_blog_publish.Models.Assertions.{
  AssertionSlots, disputed_without_contradiction, enforce_semantics, assertion_key,
}
use agentic_sec_blog_publish.Assertions.{
  UpsertResult, AssertionLedger, Upsert, invalid_assertion, lookup, assign, observation_of,
  refreshed, assertion_of, empty_ledger, upsert,
}
use agentic_sec_blog_publish.Assertions.Identity.{upsert-Attached, upsert_refused, Attached}

abbrev slots : AssertionSlots
slots = record {
  system = "SYS-1";
  agent = none;
  subject_type = SubjectType.capability;
  subject = "triage";
  action = "perform";
  object = "alerts";
  scope_key = "default";
}

abbrev claim : String → String → AssertionState → Upsert
claim id text state = record {
  assertion_id = id;
  observation_id = "OBS-1";
  slots = slots;
  statement = text;
  canonical_rendering = text;
  scope = record {
    license_tier = "unknown";
    availability = AvailabilityState.ga;
    regions = [];
    conditions = [];
  };
  state = state;
  confidence = SupportConfidence.high;
  confidence_rationale = "official";
  evidence_id = "EV-1";
  observed_at = 4;
  methodology_version = "ASI-1.0";
  taxonomy_version = "T-1";
}

abbrev first : Upsert
first = claim "A-1" "It triages alerts." AssertionState.affirmed

abbrev ledger : AssertionLedger
ledger = record {
  by_key = ("SYS-1:_system:triage:perform:alerts", assertion_of first) ∷ [];
  observations = observation_of first none ∷ [];
}

abbrev created : UpsertResult
created = record {
  assertion = assertion_of first;
  observation = observation_of first none;
  created = true;
}

first_run : upsert first empty_ledger ≡ (ok created, ledger)
unfolding upsert enforce_semantics assign assertion_key
first_run = refl

upsert-Attached_example : Attached first empty_ledger created ledger
upsert-Attached_example = upsert-Attached first empty_ledger ledger created first_run

abbrev again : Upsert
again = record (claim "A-2" "Alerts are triaged." AssertionState.affirmed) { evidence_id = "EV-2" }

abbrev attached : UpsertResult
attached = record {
  assertion = refreshed again (assertion_of first);
  observation = observation_of again (some (assertion_of first));
  created = false;
}

abbrev ledger_again : AssertionLedger
ledger_again = record {
  by_key = ("SYS-1:_system:triage:perform:alerts", refreshed again (assertion_of first)) ∷ [];
  observations = observation_of first none ∷ observation_of again (some (assertion_of first)) ∷ [];
}

again_run : upsert again ledger ≡ (ok attached, ledger_again)
unfolding upsert enforce_semantics assign assertion_key
again_run = refl

known : lookup (assertion_key slots) (ledger.by_key) ≡ some (assertion_of first)
unfolding assertion_key
known = refl

upsert_refused_example :
    ((upsert (claim "A-1" "It triages alerts." AssertionState.disputed) empty_ledger).0
      ≡ err (invalid_assertion disputed_without_contradiction))
    × (lookup
          (assertion_key slots)
          ((upsert (claim "A-1" "It triages alerts." AssertionState.disputed) empty_ledger).1
            ).by_key
        ≡ none)
    × (((upsert (claim "A-1" "It triages alerts." AssertionState.disputed) empty_ledger).1
          ).observations
        ≡ observation_of (claim "A-1" "It triages alerts." AssertionState.disputed) none ∷ [])
upsert_refused_example =
    upsert_refused (claim "A-1" "It triages alerts." AssertionState.disputed) empty_ledger refl refl
