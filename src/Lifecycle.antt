-- ===== src/Lifecycle.antt =====
-- src/agentic_security/lifecycle/state_machine.py, and the members of `LifecycleEvent` in models.py
-- that it reads.
pub mod Chain
pub mod Examples
use agentic_sec_blog_publish.Prelude.{
  ℕ, String, Bool, true, false, not, ◌||◌, ◌==◌, Option, none, some, List, [], ◌∷◌, ◌++◌, ltb,
  last?, if◌then◌else◌, is_some, Result, ok, err, ◌>>=◌, ◌>>◌, raise_if,
}
use agentic_sec_blog_publish.Models.Vocabulary.{
  AvailabilityState, private_preview, limited_public_preview, public_preview, ga, deprecated,
}
use agentic_sec_blog_publish.Models.Assertions.{LifecycleEvent}

-- `_ALLOWED`
unfoldable pub allowed : AvailabilityState → AvailabilityState → Bool
allowed AvailabilityState.unknown _ = true
allowed private_preview limited_public_preview = true
allowed private_preview public_preview = true
allowed private_preview ga = true
allowed private_preview deprecated = true
allowed limited_public_preview public_preview = true
allowed limited_public_preview ga = true
allowed limited_public_preview deprecated = true
allowed public_preview ga = true
allowed public_preview deprecated = true
allowed ga deprecated = true
allowed _ _ = false

pub data LifecycleError : Type 0 where
  exactly_one_required different_entity invalid_transition not_append_only : LifecycleError

-- `(self.system_id is None) == (self.agent_id is None)`
abbrev pub both_or_neither : Option String → Option String → Bool
both_or_neither none none = true
both_or_neither (some _) (some _) = true
both_or_neither _ _ = false

-- `LifecycleEvent.exactly_one_entity`
unfoldable pub exactly_one_entity : LifecycleEvent → Result LifecycleError LifecycleEvent
exactly_one_entity e = do
  raise_if (both_or_neither e.system_id e.agent_id) exactly_one_required
  ok e

-- `LifecycleEvent.entity_type`
abbrev pub entity_type : LifecycleEvent → String
entity_type e = if is_some e.system_id then "system" else "agent"

-- `value or rest`, where None and the empty text are false.
abbrev pub text_or : Option String → String → String
text_or none rest = rest
text_or (some text) rest = if text == "" then rest else text

-- `LifecycleEvent.entity_id`
abbrev pub entity_id : LifecycleEvent → String
entity_id e = text_or e.system_id (text_or e.agent_id "")

unfoldable pub validate_after : LifecycleEvent → LifecycleEvent → Result LifecycleError (Unit {0})
unfolding allowed
validate_after previous event = do
  raise_if
      (not (entity_type previous == entity_type event)
        || not (entity_id previous == entity_id event))
      different_entity
  raise_if (not (allowed previous.state event.state)) invalid_transition
  raise_if (ltb event.retrieved_at previous.retrieved_at) not_append_only

abbrev validate_last : Option LifecycleEvent → LifecycleEvent → Result LifecycleError (Unit {0})
validate_last none event = ok tt
validate_last (some previous) event = validate_after previous event

unfoldable pub validate_transition :
    List LifecycleEvent → LifecycleEvent → Result LifecycleError (Unit {0})
unfolding validate_after
validate_transition history event = validate_last (last? history) event

-- The list that the caller handed over is extended in place, and returned as a tuple.
unfoldable pub append_event :
    List LifecycleEvent → LifecycleEvent → Result LifecycleError (List LifecycleEvent)
unfolding validate_transition
append_event history event = do validate_transition history event; ok (history ++ (event ∷ []))

-- A ledger that appends each event in turn, from a history.
unfoldable pub append_all :
    List LifecycleEvent → List LifecycleEvent → Result LifecycleError (List LifecycleEvent)
unfolding append_event
append_all history [] = ok history
append_all history (event ∷ events) = do
  longer ← append_event history event
  append_all longer events
