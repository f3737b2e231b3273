-- ===== src/Collection/Service.antt =====
-- `LiveCollectionService` of src/agentic_security/collection/service.py: which sources are collected,
-- and how what they gave is written to the ledger and the snapshot files.
pub mod Atomic
pub mod Kept
use agentic_sec_blog_publish.Prelude.{
  ℕ, ◌+◌, suc, String, Bool, true, false, not, ◌&&◌, ◌||◌, ◌==◌, every, Option, none, some, List,
  [], ◌∷◌, ◌++◌, ltb, any, find, select, length, is_empty, is_some, map, if◌then◌else◌, Result, ok,
  err, ◌>>=◌, ◌>>◌, raise_if,
}
use agentic_sec_blog_publish.Models.Vocabulary.{SourceKind, http}
use agentic_sec_blog_publish.Models.Sources.{Source, Snapshot, is_approved, is_output, is_self}
use agentic_sec_blog_publish.Jobs.Models.{
  FailureCategory, configuration_unavailable, collection_failed,
}
use agentic_sec_blog_publish.Sources.{RegistryError, get}
use agentic_sec_blog_publish.Collection.{FetchError, robots_denied}
use agentic_sec_blog_publish.Collection.Cache.{Cache}
use agentic_sec_blog_publish.Collection.Http.{Site, Session, retrieve}
use agentic_sec_blog_publish.Storage.{
  Ledger, StorageError, source_has, snapshot_has, sync, add_snapshot,
}

pub data CollectError : Type 0 where
  live_collection_error : FailureCategory → (safe_message : String) → CollectError
  -- AssertionError
  missing_base_url : CollectError
  -- sqlite3.IntegrityError, from the transaction
  not_stored : StorageError → CollectError

abbrev pub unavailable : String → CollectError
unavailable safe_message = live_collection_error configuration_unavailable safe_message

abbrev pub failed : String → CollectError
failed safe_message = live_collection_error collection_failed safe_message

abbrev pub is_http : SourceKind → Bool
is_http http = true
is_http _ = false

-- The conditions under which a source is collected live.
abbrev pub is_live : Source → Bool
is_live s =
    s.enabled
    && (is_approved s.status
        && (not (is_output s.role)
            && (not (is_self s.trust_class) && (is_http s.kind && is_some s.base_url))))

abbrev pub governed : Result RegistryError Source → Result CollectError Source
governed (ok source) = ok source
governed (err e) = err (unavailable "A configured live collection source is not governed.")

unfoldable pub approved_sources : List Source → List String → Result CollectError (List Source)
approved_sources registry [] = ok []
approved_sources registry (id ∷ ids) = do
  source ← governed (get registry id)
  raise_if (not (is_live source))
      (unavailable "A configured source is not approved for live HTTP collection.")
  rest ← approved_sources registry ids
  ok (source ∷ rest)

-- `_validated_sources`
unfoldable pub validated_sources :
    List Source → (max_sources : ℕ) → List String → Result CollectError (List Source)
unfolding approved_sources
validated_sources registry max_sources ids = do
  raise_if (is_empty ids) (unavailable "No live collection sources are configured.")
  raise_if (ltb max_sources (length ids))
      (unavailable "Configured live collection sources exceed the run limit.")
  approved_sources registry ids

abbrev pub collected : Result FetchError Snapshot → Result CollectError Snapshot
collected (ok snapshot) = ok snapshot
collected (err robots_denied) =
    err (failed "Collection was denied by the configured source access policy.")
collected (err e) = err (failed "One or more configured sources could not be collected.")

-- The ledger, and the ids of the snapshot files.
pub record Store : Type 0 where
  pub ledger : Ledger
  pub files : List String

-- What one run of the loop over the fetched snapshots has done so far.
pub record Progress : Type 0 where
  pub store : Store
  pub persisted : List String
  pub duplicates : ℕ

pub record CollectionResult : Type 0 where
  pub fetched_count : ℕ
  pub persisted_count : ℕ
  pub duplicate_count : ℕ
  pub source_ids : List String

-- WHERE source_id=? AND sha256=?
abbrev pub is_same_text : Snapshot → Snapshot → Bool
is_same_text snapshot row = (row.source_id == snapshot.source_id) && (row.sha256 == snapshot.sha256)

unfoldable pub sync_all : List (Source × Snapshot) → Ledger → Result StorageError Ledger
sync_all [] l = ok l
sync_all ((source, snapshot) ∷ rest) l = do next ← sync source l; sync_all rest next

-- `path.unlink(missing_ok=True)` of the files that were created.
abbrev pub without_files : List String → List String → List String
without_files created files = select (λ f. not (any (λ c. c == f) created)) files

abbrev pub with_file : String → List String → List String
with_file id files = if any (λ f. f == id) files then files else files ++ (id ∷ [])

-- What a loop raises, with the ids of the files that it had created, and the files there are then.
abbrev pub Raised : Type 0
Raised = StorageError × List String × List String

abbrev pub saved : Progress → Snapshot → Result StorageError Ledger → Result Raised Progress
saved p snapshot (err e) =
    err (e, p.persisted ++ (snapshot.id ∷ []), with_file snapshot.id (p.store).files)
saved p snapshot (ok ledger) = ok (record {
  store = record { ledger = ledger; files = with_file snapshot.id (p.store).files };
  persisted = p.persisted ++ (snapshot.id ∷ []);
  duplicates = p.duplicates;
})

-- A snapshot whose text the source's snapshots already have, or one that is saved and added.
unfoldable pub store_one : Progress → Snapshot → Result Raised Progress
store_one p snapshot =
    if any (is_same_text snapshot) ((p.store).ledger).snapshots
    then ok (record p { duplicates = suc p.duplicates })
    else saved p snapshot (add_snapshot snapshot (p.store).ledger)

unfoldable pub store_all : List (Source × Snapshot) → Progress → Result Raised Progress
unfolding store_one
store_all [] p = ok p
store_all ((source, snapshot) ∷ rest) p = do next ← store_one p snapshot; store_all rest next

abbrev pub store_synced :
    List (Source × Snapshot) → Store → Result StorageError Ledger → Result Raised Progress
store_synced fetched s (err e) = err (e, [], s.files)
store_synced fetched s (ok ledger) =
    store_all fetched
      (record { store = record s { ledger = ledger }; persisted = []; duplicates = 0 })

module _ (same_source : Source → Source → Bool) where
  abbrev pub is_stored_source : Ledger → Source → Bool
  is_stored_source l source = is_equal (find (source_has source.id) l.sources)
    where
      is_equal : Option Source → Bool
      is_equal none = false
      is_equal (some row) = same_source row source

  abbrev pub is_stored_snapshot : Store → String → Bool
  is_stored_snapshot s id = any (snapshot_has id) (s.ledger).snapshots && any (λ f. f == id) s.files

  -- `_verify_persisted`
  unfoldable pub verify_persisted :
      List String → List Source → Store → Result CollectError (Unit {0})
  verify_persisted snapshot_ids sources s = do
    raise_if (not (every (is_stored_source s.ledger) sources))
        (failed "Governed source persistence could not be verified.")
    raise_if (not (every (is_stored_snapshot s) snapshot_ids))
        (failed "Collected snapshot persistence could not be verified.")

  abbrev pub result_of : List (Source × Snapshot) → Progress → CollectionResult
  result_of fetched p = record {
    fetched_count = length fetched;
    persisted_count = length p.persisted;
    duplicate_count = p.duplicates;
    source_ids = map (λ f. (f.0).id) fetched;
  }

  -- The transaction commits, or it is rolled back and the created files are removed.
  abbrev pub settle :
      List (Source × Snapshot)
      → Store
      → Result Raised Progress
      → Result CollectError CollectionResult × Store
  settle fetched s (err (e, created, files)) =
      (err (not_stored e), record s { files = without_files created files })
  settle fetched s (ok p) = (
    (do verify_persisted p.persisted (map (λ f. f.0) fetched) p.store; ok (result_of fetched p)),
    p.store,
  )

  -- `_persist`
  unfoldable pub persist :
      List (Source × Snapshot) → Store → Result CollectError CollectionResult × Store
  unfolding verify_persisted store_all sync_all
  persist fetched s = settle fetched s (store_synced fetched s (sync_all fetched s.ledger))

-- What a run is configured with. Each source has a retriever of its own on its transport, `site`;
-- `new_id` is `_snapshot_id`, by the position of the source.
pub record Config (C : Type 0) : Type 1 where
  pub source_ids : List String
  pub max_sources : ℕ
  pub site : Source → Site
  pub cache : Cache C
  pub new_id : ℕ → String → String
  pub started_at : ℕ
  pub same_source : Source → Source → Bool

module _ {C : Type 0} (config : Config C) where
  abbrev pub fresh : Session
  fresh = record { now = config.started_at; last_request_at = 0; requests = [] }

  abbrev pub retrieved : ℕ → Source → C → Result CollectError Snapshot × C
  retrieved n source store = elim source.base_url [
    | none ↦ (err missing_base_url, store)
    | some url ↦
        let r =
          retrieve (config.site source) config.cache source.id url (config.new_id n source.id)
            config.started_at store fresh in
        (collected r.0, r.1)
  ]

  -- The loop over the sources; the first that fails ends it.
  unfoldable pub fetch_all :
      ℕ → List Source → C → Result CollectError (List (Source × Snapshot)) × C
  unfolding retrieve
  fetch_all n [] store = (ok [], store)
  fetch_all n (source ∷ sources) store =
      let first = retrieved n source store in
      let rest = fetch_all (suc n) sources first.1 in
      elim first.0 [
        | err e ↦ (err e, first.1)
        | ok snapshot ↦ ((do fetched ← rest.0; ok ((source, snapshot) ∷ fetched)), rest.1)
      ]

  abbrev pub persist_fetched :
      Result CollectError (List (Source × Snapshot))
      → Store
      → Result CollectError CollectionResult × Store
  persist_fetched (err e) s = (err e, s)
  persist_fetched (ok fetched) s = persist config.same_source fetched s

  abbrev pub collect_from :
      Result CollectError (List Source)
      → C
      → Store
      → Result CollectError CollectionResult × C × Store
  collect_from (err e) store s = (err e, store, s)
  collect_from (ok sources) store s =
      let fetched = fetch_all 0 sources store in
      let done = persist_fetched fetched.0 s in (done.0, fetched.1, done.1)

  unfoldable pub collect :
      (registry : List Source) → C → Store → Result CollectError CollectionResult × C × Store
  unfolding validated_sources fetch_all persist
  collect registry store s =
      collect_from (validated_sources registry config.max_sources config.source_ids) store s
