-- ===== src/Lib.antt =====
-- A model of the agentic security index, src/agentic_security/: a ledger of evidence-backed claims
-- about security agents, what is derived from it, the human gates on changes, and the durable job
-- runtime that collects, derives and publishes.
--
-- The parts and how they interact:
--   Models          models.py. The records and vocabularies of all parts, and the validators that
--                   relate fields (`approval_is_required`, `validate_shape`, `enforce_semantics`,
--                   `exactly_one_entity`, `controlled_gate_categories`, `human_gate`,
--                   `enforce_human_decision`). A validator is a function into `Result`.
--   Jobs            jobs/. Tables is the database state of jobs/store.py (jobs, pipeline_leases,
--                   worker_heartbeats) with `Database.transaction`; Queue is `enqueue`, the reads and
--                   `heartbeat`; Pipeline is `recover_interrupted`, `claim_next` and `finish`;
--                   Executor is jobs/executor.py; Worker is one turn of jobs/worker.py, which calls
--                   the store and the executor; Runtime runs any sequence of the store's operations.
--   Assertions      assertions/: the ontology key and the ledger, which asks Models to validate and
--                   Derivations for the current scope.
--   Derivations     derivations.py: Age (freshness), Scope, Support, Independence, Autonomy, Panel.
--   Lifecycle       lifecycle/state_machine.py: the transition table and the append-only history.
--   Changes         changes/: Detection compares two snapshots, Classification proposes, Review is
--                   the human's confirmation.
--   Contradictions  contradictions/rules.py: the rules that flag, and the resolution record.
--   Editorial       editorial/: claim checks, risk, the daily brief; Weekly is the weekly pack.
--   Evidence        evidence/validation.py: anchors against snapshots, limits by class and purpose.
--   Sources         sources/registry.py: the load of the registry and the URL policy.
--   Collection      collection/. Cache is the retrieval cache of base.py; Reads, Robots and Http are
--                   http.py (the bounded read, robots.txt, and pauses, redirects and retries over a
--                   session that records each request); Git is git.py; Service is service.py, which
--                   takes snapshots with the retrievers and stores them with Storage.
--   Storage         storage/repositories.py: the writes of a ledger of tables, which ask Evidence,
--                   Lifecycle and Models; Reviews is the review queue, Claims the assertions and
--                   contradictions; Runs is any run of writes; ReadModels is read_models.py.
--   Publishing      publishing/. Scan and Bundle are validation.py (the scans for private fields and
--                   secrets, and the validator of a bundle); Projection is the export that replaces
--                   a bundle (projection.py). For github.py, Shell is `_run` and the commands, Remote
--                   the lookups of the branch and its pull request, Draft what `publish` does with
--                   them; a run gives its result with the log of its commands.
--   Trends          trend_primitives/queries.py: the velocities from preview to GA, and counters.
--   Prelude         shared helpers: tests, lists as tables, `Result`, orderings, texts.
-- Under each part, the child modules are named for what they prove; Examples holds concrete runs.
--
-- State and errors: an operation of the store takes the tables and gives its result or error with
-- the tables after it; a transaction that raises gives back the tables it began with. Times are
-- numbers of microseconds, given as arguments, as are uuids; nothing is assumed of the clock between
-- calls, so that it may also run backwards. A SELECT with ORDER BY is a stable sort by the source's
-- keys; texts are compared by code points. A Python set or mapping is the list of its members, and
-- `max`, `any`, `sorted` and f-strings are written out in Prelude.
--
-- Parameters: the regular expressions, `str.lower`, `splitlines`, difflib and hashlib of changes/ (the
-- record `Python` of Changes.Detection), the two patterns and `isoformat` of editorial/, the services
-- that the executor dispatches to, whether the file lock was acquired, and what other processes do
-- while a job runs; urllib and ipaddress (`Urls`), what answers a request, urljoin and the decoding of
-- bytes (`Site`, `Web`), the git backend (`Backend`), hashlib, splitlines and json.dumps of the ledger
-- (`Library`), the equality of sources; what gh and git answer, by the number of commands before, and
-- what the publication validator says of a bundle (`World`), for which Bundle.Published puts the
-- validator; its patterns, urllib, the sum of the entropy and the decoding of files (the `Library` of
-- Scan and of Bundle); which file operations of an export fail (`Disk`). No law assumes anything of them but
-- where it says so.
--
-- Fuel: only `decimal` (the digits of a number) runs on fuel, one more than the number, which has no
-- more digits than that. All other loops are structural on their lists, and those over attempts and
-- redirects on how many are left.
--
-- Not modelled: publishing/artifacts.py; the load of Gate A, the reads that copy a table, and the
-- initialization of storage/; what site_data.py builds; taxonomy.py, pipelines.py, api/ and cli.py;
-- the rules of normalization.py, which are regular expressions; the field patterns of
-- pydantic, but for those of a publication's result; the temporary files of the cache, the load of
-- stored snapshots and the subprocesses of git; SQLite itself, beyond the rows that a statement reads
-- and writes and the keys, references and checks that refuse one; the heartbeat thread and the file
-- lock, which enter the worker's turn as arguments.
pub mod Prelude
pub mod Jobs
pub mod Models
pub mod Lifecycle
pub mod Derivations
pub mod Changes
pub mod Assertions
pub mod Contradictions
pub mod Editorial
pub mod Evidence
pub mod Sources
pub mod Collection
pub mod Storage
pub mod Trends
pub mod Publishing
