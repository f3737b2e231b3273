-- ===== src/Models.antt =====
-- The domain types of src/agentic_security/models.py. A `datetime` is its number of microseconds, a
-- `date` its day number, a tuple a list, a `frozenset` the list of its members. The patterns and
-- lengths that `Field` puts on single texts are pydantic's to check and are not modelled.
pub mod Vocabulary
pub mod Sources
pub mod Evidence
pub mod Assertions
pub mod Autonomy
pub mod Changes
pub mod Reports
