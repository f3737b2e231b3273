-- ===== src/Jobs/Models.antt =====
-- src/agentic_security/jobs/models.py: the types of a job. A `datetime` is its number of
-- microseconds; the stored ISO texts of UTC times are ordered as these numbers are.
use agentic_sec_blog_publish.Prelude.{ℕ, String, Bool, true, false, Option}

pub data JobType : Type 0 where
  collect research daily weekly_pack publication_export publication_pr : JobType

unfoldable pub JobType-discrete : Discrete JobType
JobType-discrete = hlevel

pub data JobStatus : Type 0 where
  queued running succeeded failed cancelled : JobStatus

pub data FailureCategory : Type 0 where
  configuration_unavailable provider_unavailable collection_failed disk_guard : FailureCategory
  ledger_unavailable github_auth_unavailable publication_validation_failed : FailureCategory
  concurrency_timeout interrupted internal_error : FailureCategory

pub record JobRecord : Type 0 where
  pub job_id : String
  pub job_type : JobType
  pub requested_by : String
  pub idempotency_key : String
  pub created_at : ℕ
  pub queued_at : ℕ
  pub started_at : Option ℕ
  pub finished_at : Option ℕ
  pub updated_at : ℕ
  pub status : JobStatus
  pub retry_count : ℕ
  pub failure_category : Option FailureCategory
  pub sanitized_failure_message : Option String

abbrev pub is_queued : JobStatus → Bool
is_queued queued = true
is_queued _ = false

abbrev pub is_running : JobStatus → Bool
is_running running = true
is_running _ = false

abbrev pub is_succeeded : JobStatus → Bool
is_succeeded succeeded = true
is_succeeded _ = false

-- The set {SUCCEEDED, FAILED, CANCELLED} of `finish`.
abbrev pub is_terminal : JobStatus → Bool
is_terminal succeeded = true
is_terminal failed = true
is_terminal cancelled = true
is_terminal _ = false
