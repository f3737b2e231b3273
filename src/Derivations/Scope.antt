-- ===== src/Derivations/Scope.antt =====
-- `derive_current_scope` of src/agentic_security/derivations.py.
pub mod Latest
use agentic_sec_blog_publish.Prelude.{
  String, Bool, true, false, ◌&&◌, List, [], ◌∷◌, ◌==◌, ltb, eqb, if◌then◌else◌, select, text_leb,
}
use agentic_sec_blog_publish.Models.Vocabulary.{AvailabilityState, availability}
use agentic_sec_blog_publish.Models.Assertions.{AssertionScope, Observation}

-- `AssertionScope()`
abbrev pub default_scope : AssertionScope
default_scope = record {
  license_tier = "unknown";
  availability = AvailabilityState.unknown;
  regions = [];
  conditions = [];
}

-- `(item.observed_at, item.id)`, compared as tuples.
abbrev pub observed_leb : Observation → Observation → Bool
observed_leb a b =
    if ltb a.observed_at b.observed_at
    then true
    else if eqb a.observed_at b.observed_at
    then text_leb a.id b.id
    else false

-- Python's `max`: the first of the largest items.
unfoldable pub max_from : Observation → List Observation → Observation
max_from best [] = best
max_from best (item ∷ items) = max_from (if observed_leb item best then best else item) items

abbrev pub concerns : String → Observation → Bool
concerns assertion_id item = item.assertion_id == assertion_id && item.accepted

abbrev latest_scope : List Observation → AssertionScope
latest_scope [] = default_scope
latest_scope (item ∷ items) = (max_from item items).scope

unfoldable pub derive_current_scope : String → List Observation → AssertionScope
derive_current_scope assertion_id observations =
    latest_scope (select (concerns assertion_id) observations)
