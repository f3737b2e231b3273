-- ===== src/Assertions.antt =====
-- src/agentic_security/assertions/service.py: the in-memory ledger of assertions. `_by_key` is its
-- entries in the order of insertion; an error leaves the ledger as it was when it was raised.
pub mod Identity
pub mod Examples
use agentic_sec_blog_publish.Prelude.{
  ℕ, String, Bool, true, false, not, ◌&&◌, ◌==◌, Option, none, some, List, [], ◌∷◌, ◌++◌, find,
  map_some, if◌then◌else◌, is_empty, is_some, update_where, without_repeats, Result, ok, err,
}
use agentic_sec_blog_publish.Models.Vocabulary.{AssertionState, SupportConfidence, conditional}
use agentic_sec_blog_publish.Models.Assertions.{
  Assertion, AssertionError, AssertionScope, AssertionSlots, Observation, assertion_key,
  enforce_semantics,
}
use agentic_sec_blog_publish.Derivations.Scope.{derive_current_scope}

pub record UpsertResult : Type 0 where
  pub assertion : Assertion
  pub observation : Observation
  pub created : Bool

pub record AssertionLedger : Type 0 where
  pub by_key : List (String × Assertion)
  pub observations : List Observation

abbrev pub empty_ledger : AssertionLedger
empty_ledger = record { by_key = []; observations = [] }

-- The arguments of `upsert`.
pub record Upsert : Type 0 where
  pub assertion_id : String
  pub observation_id : String
  pub slots : AssertionSlots
  pub statement : String
  pub canonical_rendering : String
  pub scope : AssertionScope
  pub state : AssertionState
  pub confidence : SupportConfidence
  pub confidence_rationale : String
  pub evidence_id : String
  pub observed_at : ℕ
  pub methodology_version : String
  pub taxonomy_version : String

pub data UpsertError : Type 0 where
  conditions_required : UpsertError
  invalid_assertion : AssertionError → UpsertError

abbrev pub is_conditional : AssertionState → Bool
is_conditional conditional = true
is_conditional _ = false

unfoldable pub current_scope : String → AssertionLedger → AssertionScope
unfolding derive_current_scope
current_scope assertion_id l = derive_current_scope assertion_id l.observations

abbrev pub second : Option (String × Assertion) → Option Assertion
second none = none
second (some entry) = some entry.1

-- `self._by_key.get(key)`
abbrev pub lookup : String → List (String × Assertion) → Option Assertion
lookup key entries = second (find (λ entry. entry.0 == key) entries)

-- `self._by_key[key] = assertion`
unfoldable pub assign : String → Assertion → List (String × Assertion) → List (String × Assertion)
assign key a entries =
    if is_some (lookup key entries)
    then update_where (λ entry. entry.0 == key) (λ entry. (entry.0, a)) entries
    else entries ++ ((key, a) ∷ [])

abbrev pub owner_id : Option Assertion → String → String
owner_id none id = id
owner_id (some existing) id = existing.id

-- `existing is not None and existing.statement != statement`
abbrev pub is_paraphrase_of : Option Assertion → String → Bool
is_paraphrase_of none statement = false
is_paraphrase_of (some existing) statement = not (existing.statement == statement)

abbrev pub observation_of : Upsert → Option Assertion → Observation
observation_of r existing = record {
  id = r.observation_id;
  assertion_id = owner_id existing r.assertion_id;
  evidence_id = r.evidence_id;
  observed_statement = r.statement;
  observed_at = r.observed_at;
  published_at = none;
  modified_at = none;
  first_seen_at = r.observed_at;
  retrieved_at = r.observed_at;
  last_seen_at = r.observed_at;
  last_verified_at = r.observed_at;
  effective_at = none;
  is_paraphrase = is_paraphrase_of existing r.statement;
  accepted = true;
  scope = r.scope;
}

-- `existing.model_copy(...)`, which no validator sees.
abbrev pub refreshed : Upsert → Assertion → Assertion
refreshed r existing = record existing {
  last_verified_at = r.observed_at;
  evidence_ids = without_repeats (existing.evidence_ids ++ (r.evidence_id ∷ []));
}

abbrev pub assertion_of : Upsert → Assertion
assertion_of r = record {
  id = r.assertion_id;
  assertion_key = assertion_key r.slots;
  taxonomy_version = r.taxonomy_version;
  system_id = (r.slots).system;
  agent_id = (r.slots).agent;
  slots = r.slots;
  statement = r.statement;
  canonical_rendering = r.canonical_rendering;
  state = r.state;
  support_confidence = r.confidence;
  support_confidence_rationale = r.confidence_rationale;
  published_at = none;
  modified_at = none;
  first_seen_at = r.observed_at;
  retrieved_at = r.observed_at;
  last_seen_at = r.observed_at;
  first_observed_at = r.observed_at;
  last_verified_at = r.observed_at;
  effective_at = none;
  methodology_version = r.methodology_version;
  evidence_ids = r.evidence_id ∷ [];
  contradicting_evidence_ids = [];
  superseded_by = none;
}

abbrev pub Outcome : Type 0
Outcome = Result UpsertError UpsertResult × AssertionLedger

-- `Assertion(...)`, whose validator may raise.
abbrev pub create :
    Upsert → Observation → Result AssertionError Assertion → AssertionLedger → Outcome
create r o (ok a) l = (
  ok (record { assertion = a; observation = o; created = true }),
  record l { by_key = assign (assertion_key r.slots) a l.by_key },
)
create r o (err e) l = (err (invalid_assertion e), l)

abbrev pub attach : Upsert → Observation → Option Assertion → AssertionLedger → Outcome
attach r o none l = create r o (enforce_semantics (assertion_of r)) l
attach r o (some existing) l = (
  ok (record { assertion = refreshed r existing; observation = o; created = false }),
  record l { by_key = assign (assertion_key r.slots) (refreshed r existing) l.by_key },
)

unfoldable pub upsert : Upsert → AssertionLedger → Outcome
unfolding assign
upsert r l =
    if is_conditional r.state && is_empty (r.scope).conditions
    then (err conditions_required, l)
    else (let existing = lookup (assertion_key r.slots) l.by_key in
        let o = observation_of r existing in
        attach r o existing (record l { observations = l.observations ++ (o ∷ []) }))
