-- ===== src/Jobs/Runtime.antt =====
-- The job tables under any sequence of the operations of src/agentic_security/jobs/store.py, as
-- the API and the workers call them. `max_retries` is `config.max_restart_retries`.
pub mod Sound
pub mod History
use agentic_sec_blog_publish.Prelude.{
  ℕ, ◌≤◌, String, ◌≡◌, Bool, true, false, Option, none, some, List, [], ◌∷◌, map, All, Distinct,
  is_some,
}
use agentic_sec_blog_publish.Jobs.Models.{
  JobType, JobStatus, queued, running, FailureCategory, JobRecord,
}
use agentic_sec_blog_publish.Jobs.Tables.{Tables}
use agentic_sec_blog_publish.Jobs.Queue.{enqueue, heartbeat}
use agentic_sec_blog_publish.Jobs.Pipeline.{recover_interrupted, claim_next, finish}

pub data Request : Type 0 where
  enqueues : JobType → (requested_by key job_id : String) → (now : ℕ) → Request
  recovers : (now : ℕ) → Request
  claims : (now lease : ℕ) → Request
  finishes : String → JobStatus → Option FailureCategory → Option String → (now : ℕ) → Request
  beats : (worker : String) → (started_at now : ℕ) → Request

unfoldable pub step : (max_retries : ℕ) → Request → Tables → Tables
step max (enqueues job_type requested_by key job_id now) db =
    (enqueue job_type requested_by key job_id now db).1
step max (recovers now) db = (recover_interrupted max now db).1
step max (claims now lease) db = (claim_next now lease db).1
step max (finishes id status category message now) db = (finish id status category message now db).1
step max (beats worker started_at now) db = heartbeat worker started_at now db

unfoldable pub run : (max_retries : ℕ) → List Request → Tables → Tables
run max [] db = db
run max (r ∷ rs) db = run max rs (step max r db)

abbrev pub empty_tables : Tables
empty_tables = record { jobs = []; leases = []; heartbeats = [] }

-- What the times of a job say, by its status.
abbrev pub HasTimes : JobStatus → Option ℕ → Option ℕ → Type 0
HasTimes queued started finished = (started ≡ none) × (finished ≡ none)
HasTimes running started finished = (is_some started ≡ true) × (finished ≡ none)
HasTimes _ started finished = (is_some started ≡ true) × (is_some finished ≡ true)

abbrev pub IsJob : ℕ → JobRecord → Type 0
IsJob max job = (job.retry_count ≤ max) × HasTimes job.status job.started_at job.finished_at

abbrev pub keys : List JobRecord → List String
keys = map (λ job. job.idempotency_key)
