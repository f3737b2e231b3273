-- ===== src/Jobs/Tables.antt =====
-- The tables that src/agentic_security/jobs/store.py works on (storage/migrations): jobs (primary
-- key job_id, unique idempotency_key), pipeline_leases (primary key name), worker_heartbeats
-- (primary key worker_id). A table is its rows in the order of insertion. `transaction` is that
-- of storage/database.py: an exception rolls the tables back.
use agentic_sec_blog_publish.Prelude.{ℕ, String, Bool, Option, List, ◌==◌, Result, ok, err, find}
use agentic_sec_blog_publish.Jobs.Models.{JobRecord}

pub record Lease : Type 0 where
  pub name : String
  pub holder_id : String
  pub acquired_at : ℕ
  pub expires_at : ℕ

pub record Heartbeat : Type 0 where
  pub worker_id : String
  pub started_at : ℕ
  pub heartbeat_at : ℕ

pub record Tables : Type 0 where
  pub jobs : List JobRecord
  pub leases : List Lease
  pub heartbeats : List Heartbeat

pub data JobError : Type 0 where
  idempotency_conflict : JobError  -- IdempotencyConflictError
  integrity : JobError  -- sqlite3.IntegrityError
  requires_terminal : JobError  -- ValueError("finish requires a terminal job status")
  not_running : JobError  -- ValueError("job is not running")
  assertion_failed : JobError  -- AssertionError

-- What runs inside `with self.database.transaction(...)`.
abbrev pub Body : Type 0 → Type 0
Body A = Tables → Result JobError (A × Tables)

unfoldable pub transaction : {A : Type 0} → Body A → Tables → Result JobError A × Tables
transaction body db = elim (body db) [ ok (a, db') ↦ (ok a, db') | err e ↦ (err e, db) ]

abbrev pub pipeline_lease : String
pipeline_lease = "mutating-pipeline"

abbrev pub has_id : String → JobRecord → Bool
has_id id job = job.job_id == id

abbrev pub has_key : String → JobRecord → Bool
has_key key job = job.idempotency_key == key

-- SELECT * FROM jobs WHERE job_id=?
unfoldable pub get : String → Tables → Option JobRecord
get id db = find (has_id id) db.jobs

-- SELECT * FROM jobs WHERE idempotency_key=?
unfoldable pub by_key : String → Tables → Option JobRecord
by_key key db = find (has_key key) db.jobs
