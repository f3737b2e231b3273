-- ===== src/Models/Assertions.antt =====
-- AssertionScope, AssertionSlots, Assertion, Observation and LifecycleEvent of
-- src/agentic_security/models.py, and the key of assertions/identity.py.
use Prim.Native.String.{◌++◌}
use agentic_sec_blog_publish.Prelude.{
  ℕ, String, Bool, true, false, not, ◌&&◌, Option, none, some, List, ◌==◌, Result, ok, ◌>>◌,
  raise_if, is_empty, if◌then◌else◌,
}
use agentic_sec_blog_publish.Models.Vocabulary.{
  AssertionState, explicitly_unsupported, disputed, SupportConfidence, AvailabilityState,
  SubjectType, SourceClass,
}

pub record AssertionScope : Type 0 where
  pub license_tier : String
  pub availability : AvailabilityState
  pub regions : List String
  pub conditions : List String

pub record AssertionSlots : Type 0 where
  pub system : String
  pub agent : Option String
  pub subject_type : SubjectType
  pub subject : String
  pub action : String
  pub object : String
  pub scope_key : String

-- `slots.agent or "_system"`: an empty text is false.
abbrev pub agent_or_system : Option String → String
agent_or_system none = "_system"
agent_or_system (some agent) = if agent == "" then "_system" else agent

-- `assertion_key` of assertions/identity.py
unfoldable pub assertion_key : AssertionSlots → String
assertion_key slots =
    slots.system
    ++ (":"
        ++ (agent_or_system slots.agent
            ++ (":" ++ (slots.subject ++ (":" ++ (slots.action ++ (":" ++ slots.object)))))))

-- `candidate_matches` of assertions/identity.py
unfoldable pub candidate_matches : String → AssertionSlots → Bool
candidate_matches existing_key slots = existing_key == assertion_key slots

pub record Assertion : Type 0 where
  pub id : String
  pub assertion_key : String
  pub taxonomy_version : String
  pub system_id : String
  pub agent_id : Option String
  pub slots : AssertionSlots
  pub statement : String
  pub canonical_rendering : String
  pub state : AssertionState
  pub support_confidence : SupportConfidence
  pub support_confidence_rationale : String
  pub published_at : Option ℕ
  pub modified_at : Option ℕ
  pub first_seen_at : ℕ
  pub retrieved_at : ℕ
  pub last_seen_at : ℕ
  pub first_observed_at : ℕ
  pub last_verified_at : ℕ
  pub effective_at : Option ℕ
  pub methodology_version : String
  pub evidence_ids : List String
  pub contradicting_evidence_ids : List String
  pub superseded_by : Option String

abbrev pub is_explicitly_unsupported : AssertionState → Bool
is_explicitly_unsupported explicitly_unsupported = true
is_explicitly_unsupported _ = false

abbrev pub is_disputed : AssertionState → Bool
is_disputed disputed = true
is_disputed _ = false

pub data AssertionError : Type 0 where
  key_mismatch negative_without_evidence disputed_without_contradiction : AssertionError

-- `Assertion.enforce_semantics`
unfoldable pub enforce_semantics : Assertion → Result AssertionError Assertion
enforce_semantics a = do
  raise_if (not (a.assertion_key == assertion_key a.slots)) key_mismatch
  raise_if
      (is_explicitly_unsupported a.state
        && (is_empty a.evidence_ids && is_empty a.contradicting_evidence_ids))
      negative_without_evidence
  raise_if (is_disputed a.state && is_empty a.contradicting_evidence_ids)
      disputed_without_contradiction
  ok a

pub record Observation : Type 0 where
  pub id : String
  pub assertion_id : String
  pub evidence_id : String
  pub observed_statement : String
  pub observed_at : ℕ
  pub published_at : Option ℕ
  pub modified_at : Option ℕ
  pub first_seen_at : ℕ
  pub retrieved_at : ℕ
  pub last_seen_at : ℕ
  pub last_verified_at : ℕ
  pub effective_at : Option ℕ
  pub is_paraphrase : Bool
  pub accepted : Bool
  pub scope : AssertionScope

pub record LifecycleModifiers : Type 0 where
  pub regions : List String
  pub conditions : List String

pub record LifecycleEvent : Type 0 where
  pub id : String
  pub system_id : Option String
  pub agent_id : Option String
  pub state : AvailabilityState
  pub modifiers : LifecycleModifiers
  pub effective_at : Option ℕ
  pub evidence_id : String
  pub source_class : SourceClass
  pub retrieved_at : ℕ
  pub rationale : String
