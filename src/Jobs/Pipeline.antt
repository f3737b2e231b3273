-- ===== src/Jobs/Pipeline.antt =====
-- src/agentic_security/jobs/store.py: recovery after a restart, the claim under the pipeline
-- lease, and the end of a job. `_now()` is an argument.
pub mod Ids
pub mod Recover
pub mod Claim
pub mod Finish
use agentic_sec_blog_publish.Prelude.{
  ℕ, ◌+◌, String, Bool, false, not, ◌&&◌, Option, none, some, List, [], ◌∷◌, ◌++◌, ◌==◌, ltb, leb,
  eqb, if◌then◌else◌, Result, ok, err, ◌>>=◌, ◌>>◌, raise_if, head?, any, select, find,
  update_where, count_where, text_leb, then_by, order_by,
}
use agentic_sec_blog_publish.Jobs.Models.{
  JobStatus, queued, running, failed, FailureCategory, interrupted, JobRecord, is_queued,
  is_running, is_terminal,
}
use agentic_sec_blog_publish.Jobs.Tables.{
  Lease, Tables, JobError, integrity, requires_terminal, not_running, assertion_failed, Body,
  transaction, pipeline_lease, has_id, get,
}

-- DELETE FROM pipeline_leases WHERE expires_at<=?
unfoldable pub delete_expired : ℕ → Tables → Tables
delete_expired now db = record db { leases = select (λ l. not (leb l.expires_at now)) db.leases }

-- SELECT … FROM pipeline_leases WHERE name=?
unfoldable pub active_lease : Tables → Option Lease
active_lease db = find (λ l. l.name == pipeline_lease) db.leases

abbrev pub requeued : ℕ → JobRecord → JobRecord
requeued now job = record job {
  status = queued;
  started_at = none;
  queued_at = now;
  updated_at = now;
  retry_count = job.retry_count + 1;
  failure_category = none;
  sanitized_failure_message = none;
}

abbrev pub given_up : ℕ → JobRecord → JobRecord
given_up now job = record job {
  status = failed;
  finished_at = some now;
  updated_at = now;
  failure_category = some interrupted;
  sanitized_failure_message = some "The worker stopped before the job completed.";
}

-- WHERE job_id=? AND status=RUNNING
abbrev pub runs_as : String → JobRecord → Bool
runs_as id job = has_id id job && is_running job.status

abbrev pub is_holder : String → Option Lease → Bool
is_holder id none = false
is_holder id (some lease) = id == lease.holder_id

-- The body of the loop of `recover_interrupted`, for one selected row.
pub recover_row : Option Lease → ℕ → ℕ → JobRecord → List JobRecord × ℕ → List JobRecord × ℕ
recover_row active max_retries now row (jobs, recovered) =
    if is_holder row.job_id active
    then (jobs, recovered)
    else if ltb row.retry_count max_retries
    then (update_where (runs_as row.job_id) (requeued now) jobs, recovered + 1)
    else (update_where (runs_as row.job_id) (given_up now) jobs, recovered + 1)

pub recover_rows : Option Lease → ℕ → ℕ → List JobRecord → List JobRecord × ℕ → List JobRecord × ℕ
recover_rows active max_retries now [] state = state
recover_rows active max_retries now (row ∷ rows) state =
    recover_rows active max_retries now rows (recover_row active max_retries now row state)

unfoldable pub recover_interrupted : (max_retries now : ℕ) → Tables → ℕ × Tables
unfolding delete_expired active_lease recover_row recover_rows
recover_interrupted max_retries now db =
    let db' = delete_expired now db in
    let (jobs, recovered) =
      recover_rows (active_lease db') max_retries now
        (select (λ job. is_running job.status) db'.jobs) (db'.jobs, 0) in
    (recovered, record db' { jobs = jobs })

-- ORDER BY queued_at,created_at,job_id
abbrev pub claim_leb : JobRecord → JobRecord → Bool
claim_leb a b =
    then_by a.queued_at b.queued_at (then_by a.created_at b.created_at (text_leb a.job_id b.job_id))

unfoldable pub next_queued : Tables → Option JobRecord
next_queued db = head? (order_by claim_leb (select (λ job. is_queued job.status) db.jobs))

-- INSERT INTO pipeline_leases
pub insert_lease : Lease → Tables → Result JobError Tables
insert_lease lease db =
    if any (λ l. l.name == lease.name) db.leases
    then err integrity
    else ok (record db { leases = db.leases ++ (lease ∷ []) })

abbrev pub started : ℕ → JobRecord → JobRecord
started now job = record job { status = running; started_at = some now; updated_at = now }

abbrev pub waits_as : String → JobRecord → Bool
waits_as id job = has_id id job && is_queued job.status

pub mark_running : String → ℕ → Tables → Tables
mark_running id now db = record db { jobs = update_where (waits_as id) (started now) db.jobs }

pub reread : Option JobRecord → Tables → Result JobError (Option JobRecord × Tables)
reread none db = err assertion_failed
reread (some row) db = ok (some row, db)

pub claim_row : (now lease : ℕ) → JobRecord → Body (Option JobRecord)
unfolding insert_lease mark_running get reread
claim_row now lease row db = do
  leased ←
      insert_lease
        (record {
          name = pipeline_lease;
          holder_id = row.job_id;
          acquired_at = now;
          expires_at = now + lease;
        })
        db
  let db' = mark_running row.job_id now leased
  reread (get row.job_id db') db'

pub claim_unleased : (now lease : ℕ) → Option Lease → Option JobRecord → Body (Option JobRecord)
unfolding claim_row
claim_unleased now lease (some active) row db = ok (none, db)
claim_unleased now lease none none db = ok (none, db)
claim_unleased now lease none (some row) db = claim_row now lease row db

pub claim_body : (now lease : ℕ) → Body (Option JobRecord)
unfolding delete_expired active_lease next_queued claim_unleased
claim_body now lease db =
    let db' = delete_expired now db in
    claim_unleased now lease (active_lease db') (next_queued db') db'

-- `lease` is the length of `timedelta(seconds=lease_seconds)`.
unfoldable pub claim_next : (now lease : ℕ) → Tables → Result JobError (Option JobRecord) × Tables
unfolding transaction claim_body
claim_next now lease = transaction (claim_body now lease)

abbrev pub ended : JobStatus → Option FailureCategory → Option String → ℕ → JobRecord → JobRecord
ended status category message now job = record job {
  status = status;
  finished_at = some now;
  updated_at = now;
  failure_category = category;
  sanitized_failure_message = message;
}

-- DELETE FROM pipeline_leases WHERE name=? AND holder_id=?
unfoldable pub release : String → List Lease → List Lease
release id leases = select (λ l. not (l.name == pipeline_lease && l.holder_id == id)) leases

pub reread_finished : Option JobRecord → Tables → Result JobError (JobRecord × Tables)
reread_finished none db = err assertion_failed
reread_finished (some row) db = ok (row, db)

pub finish_body : String → JobStatus → Option FailureCategory → Option String → ℕ → Body JobRecord
unfolding release get reread_finished
finish_body id status category message now db = do
  raise_if (not (eqb (count_where (runs_as id) db.jobs) 1)) not_running
  let db' = record db {
    jobs = update_where (runs_as id) (ended status category message now) db.jobs;
    leases = release id db.leases;
  }
  reread_finished (get id db') db'

-- The status is refused before the transaction begins.
unfoldable pub finish :
    (job_id : String)
    → JobStatus
    → Option FailureCategory
    → Option String
    → (now : ℕ) → Tables
    → Result JobError JobRecord × Tables
unfolding transaction finish_body
finish id status category message now db =
    if is_terminal status
    then transaction (finish_body id status category message now) db
    else (err requires_terminal, db)
