-- ===== src/Storage/Claims.antt =====
-- The repositories of assertions, observations, structured diffs and contradictions. The patterns of
-- the ids are the models' own, and are not looked at here.
use agentic_sec_blog_publish.Prelude.{
  String, Bool, true, false, not, ◌&&◌, ◌||◌, ◌==◌, Option, List, [], ◌∷◌, ◌++◌, map, any, find,
  update_where, if◌then◌else◌, Result, ok, ◌>>◌, raise_if,
}
use agentic_sec_blog_publish.Models.Vocabulary.{confirmed}
use agentic_sec_blog_publish.Models.Assertions.{Assertion, Observation}
use agentic_sec_blog_publish.Models.Changes.{StructuredDiff}
use agentic_sec_blog_publish.Models.Reports.{ContradictionFlag, ContradictionResolution}
use agentic_sec_blog_publish.Storage.{
  Ledger, AssertionLink, FlagRow, StorageError, duplicate_key, missing_reference, refers,
  source_has, snapshot_has, evidence_has,
}

abbrev pub assertion_has : String → Assertion → Bool
assertion_has id assertion = assertion.id == id

abbrev pub key_has : String → Assertion → Bool
key_has key assertion = assertion.assertion_key == key

abbrev same_flag : Bool → Bool → Bool
same_flag a b = if a then b else not b

-- PRIMARY KEY (assertion_id, evidence_id, relation)
abbrev pub same_link : AssertionLink → AssertionLink → Bool
same_link a b =
    (a.assertion_id == b.assertion_id)
    && ((a.evidence_id == b.evidence_id) && same_flag a.supports b.supports)

-- `executemany` of the links.
abbrev pub add_links : List AssertionLink → Ledger → Result StorageError Ledger
add_links [] l = ok l
add_links (link ∷ links) l = do
  raise_if (any (same_link link) l.assertion_evidence) duplicate_key
  raise_if (not (any (evidence_has link.evidence_id) l.evidence)) missing_reference
  add_links links (record l { assertion_evidence = l.assertion_evidence ++ (link ∷ []) })

abbrev link_to : String → Bool → String → AssertionLink
link_to assertion_id supports evidence_id = record {
  assertion_id = assertion_id;
  evidence_id = evidence_id;
  supports = supports;
}

abbrev pub links_of : Assertion → List AssertionLink
links_of a =
    map (link_to a.id true) a.evidence_ids ++ map (link_to a.id false) a.contradicting_evidence_ids

-- `AssertionRepository.add`
unfoldable pub add_assertion : Assertion → Ledger → Result StorageError Ledger
add_assertion a l = do
  raise_if (any (assertion_has a.id) l.assertions || any (key_has a.assertion_key) l.assertions)
      duplicate_key
  raise_if
      (not (any (λ id. id == a.taxonomy_version) l.taxonomy_versions)
        || (not (any (λ id. id == a.system_id) l.systems)
            || (not (refers (λ x y. y == x) a.agent_id l.agents)
                || not (refers assertion_has a.superseded_by (l.assertions ++ (a ∷ []))))))
      missing_reference
  add_links (links_of a) (record l { assertions = l.assertions ++ (a ∷ []) })

-- `AssertionRepository.by_key`
unfoldable pub by_key : String → Ledger → Option Assertion
by_key key l = find (key_has key) l.assertions

-- `ObservationRepository.add`
unfoldable pub add_observation : Observation → Ledger → Result StorageError Ledger
add_observation o l = do
  raise_if (any (λ row. row.id == o.id) l.observations) duplicate_key
  raise_if
      (not (any (assertion_has o.assertion_id) l.assertions)
        || not (any (evidence_has o.evidence_id) l.evidence))
      missing_reference
  ok (record l { observations = l.observations ++ (o ∷ []) })

-- `Pass2Repository.add_diff`
unfoldable pub add_diff : StructuredDiff → Ledger → Result StorageError Ledger
add_diff d l = do
  raise_if (any (λ row. row.id == d.id) l.structured_diffs) duplicate_key
  raise_if
      (not (any (source_has d.source_id) l.sources)
        || (not (any (snapshot_has d.old_snapshot_id) l.snapshots)
            || not (any (snapshot_has d.new_snapshot_id) l.snapshots)))
      missing_reference
  ok (record l { structured_diffs = l.structured_diffs ++ (d ∷ []) })

abbrev pub flag_has : String → FlagRow → Bool
flag_has id row = (row.payload).id == id

-- `Pass2Repository.add_conflict`
unfoldable pub add_conflict : ContradictionFlag → Ledger → Result StorageError Ledger
add_conflict c l = do
  raise_if (any (flag_has c.id) l.contradiction_flags) duplicate_key
  ok (record l {
    contradiction_flags = l.contradiction_flags ++ (record { status = c.status; payload = c } ∷ []);
  })

-- UPDATE contradiction_flags SET status='CONFIRMED'
abbrev pub mark_confirmed : FlagRow → FlagRow
mark_confirmed row = record row { status = confirmed }

-- `Pass2Repository.add_resolution`
unfoldable pub add_resolution : ContradictionResolution → Ledger → Result StorageError Ledger
add_resolution r l = do
  raise_if (any (λ row. row.id == r.id) l.contradiction_resolutions) duplicate_key
  raise_if (not (any (flag_has r.conflict_id) l.contradiction_flags)) missing_reference
  ok (record l {
    contradiction_resolutions = l.contradiction_resolutions ++ (r ∷ []);
    contradiction_flags =
        update_where (flag_has r.conflict_id) mark_confirmed l.contradiction_flags;
  })
