-- ===== src/Jobs/Queue.antt =====
-- src/agentic_security/jobs/store.py: enqueueing, the reads, and the heartbeats. `_now()` and
-- `uuid.uuid4()` are arguments.
pub mod Replay
use agentic_sec_blog_publish.Prelude.{
  ℕ, suc, String, Bool, true, false, not, ◌&&◌, ◌||◌, Option, none, some, List, [], ◌∷◌, ◌++◌, ◌==◌,
  leb, if◌then◌else◌, is_same, Result, ok, err, ◌>>=◌, take, head?, any, select, update_where,
  count_where, text_leb, then_by, order_by,
}
use agentic_sec_blog_publish.Jobs.Models.{
  JobType, JobType-discrete, JobStatus, queued, JobRecord, is_running, is_succeeded,
}
use agentic_sec_blog_publish.Jobs.Tables.{
  Heartbeat, Tables, JobError, idempotency_conflict, integrity, assertion_failed, Body, transaction,
  has_id, has_key, get, by_key,
}

unfoldable pub validate_idempotent_replay : JobRecord → JobType → String → Result JobError JobRecord
validate_idempotent_replay job job_type requested_by =
    if not (is_same JobType-discrete job.job_type job_type)
      || not (job.requested_by == requested_by)
    then err idempotency_conflict
    else ok job

-- INSERT INTO jobs under the two uniqueness constraints.
unfoldable pub insert_job : JobRecord → Tables → Result JobError Tables
insert_job job db =
    if any (has_id job.job_id) db.jobs || any (has_key job.idempotency_key) db.jobs
    then err integrity
    else ok (record db { jobs = db.jobs ++ (job ∷ []) })

unfoldable pub new_job : JobType → String → String → String → ℕ → JobRecord
new_job job_type requested_by idempotency_key job_id created_at = record {
  job_id = job_id;
  job_type = job_type;
  requested_by = requested_by;
  idempotency_key = idempotency_key;
  created_at = created_at;
  queued_at = created_at;
  started_at = none;
  finished_at = none;
  updated_at = created_at;
  status = queued;
  retry_count = 0;
  failure_category = none;
  sanitized_failure_message = none;
}

-- `return _validate_idempotent_replay(...), True`
replay : JobType → String → JobRecord → Tables → Result JobError ((JobRecord × Bool) × Tables)
unfolding validate_idempotent_replay
replay job_type requested_by existing db = do
  job ← validate_idempotent_replay existing job_type requested_by
  ok ((job, true), db)

-- The `except sqlite3.IntegrityError` clause.
on_conflict :
    JobType
    → String
    → JobError
    → Option JobRecord
    → Tables
    → Result JobError ((JobRecord × Bool) × Tables)
unfolding replay
on_conflict job_type requested_by e none db = err e
on_conflict job_type requested_by e (some existing) db = replay job_type requested_by existing db

-- `assert row is not None; return _record(row), False`
inserted : Option JobRecord → Tables → Result JobError ((JobRecord × Bool) × Tables)
inserted none db = err assertion_failed
inserted (some row) db = ok ((row, false), db)

enqueue_new : JobType → String → String → String → ℕ → Body (JobRecord × Bool)
unfolding insert_job by_key get on_conflict inserted
enqueue_new job_type requested_by key job_id now db =
    elim (insert_job (new_job job_type requested_by key job_id now) db) [
      | ok db' ↦ inserted (get job_id db') db'
      | err e ↦ on_conflict job_type requested_by e (by_key key db) db
    ]

enqueue_body : JobType → String → String → String → ℕ → Body (JobRecord × Bool)
unfolding by_key replay enqueue_new
enqueue_body job_type requested_by key job_id now db = elim (by_key key db) [
  | none ↦ enqueue_new job_type requested_by key job_id now db
  | some existing ↦ replay job_type requested_by existing db
]

unfoldable pub enqueue :
    JobType
    → (requested_by key job_id : String) (now : ℕ) → Tables
    → Result JobError (JobRecord × Bool) × Tables
unfolding transaction enqueue_body
enqueue job_type requested_by key job_id now =
    transaction (enqueue_body job_type requested_by key job_id now)

-- ORDER BY created_at DESC,job_id DESC
abbrev pub newest_leb : JobRecord → JobRecord → Bool
newest_leb a b = then_by b.created_at a.created_at (text_leb b.job_id a.job_id)

abbrev pub has_status : Option (JobStatus → Bool) → JobRecord → Bool
has_status none job = true
has_status (some wanted) job = wanted job.status

-- `list`; the status asked for is its test.
unfoldable pub list_jobs : Option (JobStatus → Bool) → ℕ → Tables → List JobRecord
list_jobs status limit db = take limit (order_by newest_leb (select (has_status status) db.jobs))

unfoldable pub queue_count : (JobStatus → Bool) → Tables → ℕ
queue_count status db = count_where (λ job. status job.status) db.jobs

-- NULL comes first in an ascending order.
abbrev pub null_first : Option ℕ → ℕ
null_first none = 0
null_first (some t) = suc t

-- ORDER BY finished_at DESC,job_id DESC
abbrev pub latest_leb : JobRecord → JobRecord → Bool
latest_leb a b =
    then_by (null_first b.finished_at) (null_first a.finished_at) (text_leb b.job_id a.job_id)

abbrev pub has_type : Option JobType → JobRecord → Bool
has_type none job = true
has_type (some wanted) job = is_same JobType-discrete job.job_type wanted

unfoldable pub latest_successful : Option JobType → Tables → Option JobRecord
latest_successful job_type db =
    head? (
      order_by latest_leb
        (select (λ job. is_succeeded job.status && has_type job_type job) db.jobs))

-- ORDER BY started_at,job_id
abbrev pub started_leb : JobRecord → JobRecord → Bool
started_leb a b =
    then_by (null_first a.started_at) (null_first b.started_at) (text_leb a.job_id b.job_id)

unfoldable pub active_job : Tables → Option JobRecord
active_job db = head? (order_by started_leb (select (λ job. is_running job.status) db.jobs))

-- INSERT … ON CONFLICT(worker_id) DO UPDATE SET heartbeat_at=excluded.heartbeat_at
unfoldable pub upsert_heartbeat : String → ℕ → ℕ → List Heartbeat → List Heartbeat
upsert_heartbeat worker started now rows =
    if any (λ row. row.worker_id == worker) rows
    then update_where (λ row. row.worker_id == worker) (λ row. record row { heartbeat_at = now })
        rows
    else rows ++ (record { worker_id = worker; started_at = started; heartbeat_at = now } ∷ [])

unfoldable pub heartbeat : String → (started_at now : ℕ) → Tables → Tables
unfolding upsert_heartbeat
heartbeat worker started now db = record db {
  heartbeats = upsert_heartbeat worker started now db.heartbeats;
}

-- `threshold` is `_now() - timedelta(seconds=ttl_seconds)`.
unfoldable pub worker_available : ℕ → Tables → Bool
worker_available threshold db = any (λ row. leb threshold row.heartbeat_at) db.heartbeats
