-- ===== src/Storage.antt =====
-- src/agentic_security/storage/repositories.py: the repositories of sources, snapshots, evidence,
-- lifecycle events, assertions and reviewed changes, over the tables of storage/schema.sql with their keys,
-- references and triggers. A table is its rows in the order of insertion; the systems and agents
-- are their ids. What hashlib, json and `splitlines` give is the argument `lib`.
pub mod Reviews
pub mod Claims
pub mod ReadModels
pub mod Sound
pub mod Operations
pub mod Runs
pub mod Examples
use agentic_sec_blog_publish.Prelude.{
  ℕ, String, Bool, true, false, not, ◌&&◌, ◌||◌, ◌==◌, Option, none, some, List, [], ◌∷◌, ◌++◌, any,
  find, select, update_where, is_some, if◌then◌else◌, Result, ok, err, ◌>>=◌, ◌>>◌, raise_if,
}
use agentic_sec_blog_publish.Models.Sources.{Source, Snapshot}
use agentic_sec_blog_publish.Models.Evidence.{Evidence}
use agentic_sec_blog_publish.Models.Vocabulary.{ReviewStatus}
use agentic_sec_blog_publish.Models.Assertions.{LifecycleEvent, Assertion, Observation}
use agentic_sec_blog_publish.Models.Changes.{MaterialChange, ChangeReviewItem, StructuredDiff}
use agentic_sec_blog_publish.Models.Reports.{ContradictionFlag, ContradictionResolution}
use agentic_sec_blog_publish.Evidence.{
  EvidenceError, validate_evidence_anchor, validate_evidence_classification,
  validate_evidence_purpose,
}
use agentic_sec_blog_publish.Lifecycle.{
  LifecycleError, validate_transition, entity_type, entity_id, both_or_neither,
}

pub record Library : Type 0 where
  -- `hashlib.sha256(text.encode("utf-8")).hexdigest()`
  pub hexdigest : String → String
  pub splitlines : String → List String
  -- `json.dumps` of a list of texts
  pub dumps : List String → String

-- A row of confirmed_changes.
pub record ConfirmedChange : Type 0 where
  pub change : MaterialChange
  pub review_id : String

-- A row of assertion_evidence; the relation is SUPPORTS or CONTRADICTS.
pub record AssertionLink : Type 0 where
  pub assertion_id : String
  pub evidence_id : String
  pub supports : Bool

-- A row of contradiction_flags: the column `status`, and what payload_json holds.
pub record FlagRow : Type 0 where
  pub status : ReviewStatus
  pub payload : ContradictionFlag

pub record Ledger : Type 0 where
  pub systems : List String
  pub agents : List String
  pub sources : List Source
  pub snapshots : List Snapshot
  pub evidence : List Evidence
  pub lifecycle_events : List LifecycleEvent
  pub methodology_versions : List String
  pub taxonomy_versions : List String
  pub structured_diffs : List StructuredDiff
  pub reviews : List ChangeReviewItem
  pub confirmed_changes : List ConfirmedChange
  pub assertions : List Assertion
  pub assertion_evidence : List AssertionLink
  pub observations : List Observation
  pub contradiction_flags : List FlagRow
  pub contradiction_resolutions : List ContradictionResolution

pub data StorageError : Type 0 where
  -- sqlite3.IntegrityError
  duplicate_key missing_reference failed_check immutable_proposal : StorageError
  -- ValueError
  unknown_source unknown_snapshot source_mismatch : StorageError
  not_human_confirmed not_confirmed_review : StorageError
  invalid_evidence : EvidenceError → StorageError
  invalid_transition : LifecycleError → StorageError

abbrev pub source_has : String → Source → Bool
source_has id source = source.id == id

abbrev pub snapshot_has : String → Snapshot → Bool
snapshot_has id snapshot = snapshot.id == id

abbrev pub evidence_has : String → Evidence → Bool
evidence_has id evidence = evidence.id == id

-- A reference that may be NULL is to a row of the table.
abbrev pub refers {ℓ} : {A : Type ℓ} → (String → A → Bool) → Option String → List A → Bool
refers has none rows = true
refers has (some id) rows = any (has id) rows

-- `SourceRepository.add`
unfoldable pub add_source : Source → Ledger → Result StorageError Ledger
add_source source l = do
  raise_if (any (source_has source.id) l.sources) duplicate_key
  ok (record l { sources = l.sources ++ (source ∷ []) })

-- `SourceRepository.sync`. An equal row is left, which is also what the update makes of it.
unfoldable pub sync : Source → Ledger → Result StorageError Ledger
unfolding add_source
sync source l =
    if any (source_has source.id) l.sources
    then ok (record l { sources = update_where (source_has source.id) (λ row. source) l.sources })
    else add_source source l

-- UNIQUE(source_id, canonical_uri, sha256)
abbrev pub same_content : Snapshot → Snapshot → Bool
same_content a b =
    (a.source_id == b.source_id) && ((a.canonical_uri == b.canonical_uri) && (a.sha256 == b.sha256))

-- `SnapshotRepository.add`
unfoldable pub add_snapshot : Snapshot → Ledger → Result StorageError Ledger
add_snapshot snapshot l = do
  raise_if (any (snapshot_has snapshot.id) l.snapshots || any (same_content snapshot) l.snapshots)
      duplicate_key
  raise_if
      (not (any (source_has snapshot.source_id) l.sources)
        || not (refers snapshot_has snapshot.duplicate_of (l.snapshots ++ (snapshot ∷ []))))
      missing_reference
  ok (record l { snapshots = l.snapshots ++ (snapshot ∷ []) })

abbrev pub known_source : Option Source → Result StorageError Source
known_source none = err unknown_source
known_source (some source) = ok source

abbrev pub known_snapshot : Option Snapshot → Result StorageError Snapshot
known_snapshot none = err unknown_snapshot
known_snapshot (some snapshot) = ok snapshot

abbrev pub checked : Result EvidenceError (Unit {0}) → Result StorageError (Unit {0})
checked (ok u) = ok u
checked (err e) = err (invalid_evidence e)

abbrev pub transition : Result LifecycleError (Unit {0}) → Result StorageError (Unit {0})
transition (ok u) = ok u
transition (err e) = err (invalid_transition e)

-- The validators that `EvidenceRepository.add` calls, in their order.
unfoldable pub check_evidence :
    Library → Evidence → Snapshot → Source → Result StorageError (Unit {0})
check_evidence lib evidence snapshot source = do
  raise_if (not (evidence.source_id == snapshot.source_id)) source_mismatch
  checked (validate_evidence_anchor lib.hexdigest lib.splitlines evidence snapshot)
  checked (validate_evidence_classification evidence)
  checked (validate_evidence_purpose evidence source)

-- `EvidenceRepository.add`
unfoldable pub add_evidence : Library → Evidence → Ledger → Result StorageError Ledger
unfolding check_evidence
add_evidence lib evidence l = do
  source ← known_source (find (source_has evidence.source_id) l.sources)
  snapshot ← known_snapshot (find (snapshot_has (evidence.anchor).snapshot_id) l.snapshots)
  check_evidence lib evidence snapshot source
  raise_if (any (evidence_has evidence.id) l.evidence) duplicate_key
  raise_if
      (not (refers evidence_has evidence.derivative_of_evidence_id (l.evidence ++ (evidence ∷ []))))
      missing_reference
  ok (record l { evidence = l.evidence ++ (evidence ∷ []) })

-- The column that `entity_type` selects.
abbrev pub entity_column : (is_system : Bool) → LifecycleEvent → Option String
entity_column true event = event.system_id
entity_column false event = event.agent_id

abbrev pub is_value : String → Option String → Bool
is_value id none = false
is_value id (some found) = found == id

-- `WHERE {entity_column}=?`
abbrev pub of_entity : (type id : String) → LifecycleEvent → Bool
of_entity type id event = is_value id (entity_column (type == "system") event)

-- `LifecycleRepository.history`
unfoldable pub history : (type id : String) → Ledger → List LifecycleEvent
history type id l = select (of_entity type id) l.lifecycle_events

-- `LifecycleRepository.append`
unfoldable pub append_lifecycle : LifecycleEvent → Ledger → Result StorageError Ledger
unfolding history
append_lifecycle event l = do
  transition (validate_transition (history (entity_type event) (entity_id event) l) event)
  raise_if (any (λ e. e.id == event.id) l.lifecycle_events) duplicate_key
  raise_if
      (not (refers (λ a b. b == a) event.system_id l.systems)
        || (not (refers (λ a b. b == a) event.agent_id l.agents)
            || not (any (evidence_has event.evidence_id) l.evidence)))
      missing_reference
  raise_if (both_or_neither event.system_id event.agent_id) failed_check
  ok (record l { lifecycle_events = l.lifecycle_events ++ (event ∷ []) })
