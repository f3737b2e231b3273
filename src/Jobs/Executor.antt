-- ===== src/Jobs/Executor.antt =====
-- src/agentic_security/jobs/executor.py: the dispatch of a job to its service, and the translation
-- of what the services raise. The services are arguments: each ends normally or raises.
pub mod Failures
use agentic_sec_blog_publish.Prelude.{
  ℕ, String, ◌≡◌, Bool, true, false, ◌==◌, ltb, if◌then◌else◌, Result, ok, err, ◌>>=◌, ◌>>◌,
  raise_if,
}
use agentic_sec_blog_publish.Jobs.Models.{
  JobType, collect, research, daily, weekly_pack, publication_export, publication_pr,
  FailureCategory, configuration_unavailable, provider_unavailable, collection_failed, disk_guard,
  ledger_unavailable, publication_validation_failed,
}

-- The exceptions that the clauses of `execute` tell apart, in the order of those clauses.
pub data Raised : Type 0 where
  live_collection_error : FailureCategory → String → Raised
  publication_error : FailureCategory → String → Raised
  file_not_found : Raised
  value_error : Raised  -- and its subclasses, such as validation and decoding errors
  runtime_error : String → Raised
  job_execution_error : FailureCategory → String → Raised  -- a RuntimeError too
  other_exception : Raised

pub record Services : Type 0 where
  pub run_collect : Result Raised (Unit {0})
  pub run_daily_pipeline : Result Raised (Unit {0})
  pub run_weekly_pipeline : Result Raised (Unit {0})
  pub run_export : Result Raised (Unit {0})
  pub run_publish : Result Raised (Unit {0})

unfoldable pub execute_allowlisted : Services → JobType → Result Raised (Unit {0})
execute_allowlisted s collect = s.run_collect
execute_allowlisted s research =
    err
      (job_execution_error provider_unavailable "A production research provider is not configured.")
execute_allowlisted s daily = s.run_daily_pipeline
execute_allowlisted s weekly_pack = s.run_weekly_pipeline
execute_allowlisted s publication_export = s.run_export
execute_allowlisted s publication_pr = s.run_publish

-- `disk_guard` of runtime.py, over the free bytes that `shutil.disk_usage` reports.
unfoldable pub guard_disk : (free min_free_bytes : ℕ) → Result Raised (Unit {0})
guard_disk free min_free_bytes = raise_if (ltb free min_free_bytes) (runtime_error "DISK_GUARD")

abbrev pub no_space : Raised
no_space = job_execution_error disk_guard "Insufficient free disk space for the job."

-- The `except` clauses.
unfoldable pub translate : Raised → Raised
translate (live_collection_error category message) = job_execution_error category message
translate (publication_error category message) = job_execution_error category message
translate file_not_found =
    job_execution_error ledger_unavailable "The configured ledger is unavailable."
translate value_error =
    job_execution_error publication_validation_failed "The job input failed repository validation."
translate (runtime_error text) = if text == "DISK_GUARD" then no_space else runtime_error text
translate (job_execution_error category message) =
    if message == "DISK_GUARD" then no_space else job_execution_error category message
translate other_exception = other_exception

abbrev pub handle : Result Raised (Unit {0}) → Result Raised (Unit {0})
handle (ok u) = ok u
handle (err e) = err (translate e)

unfoldable pub execute : Services → (free min_free_bytes : ℕ) → JobType → Result Raised (Unit {0})
unfolding execute_allowlisted guard_disk translate
execute s free min_free_bytes job_type =
    handle (guard_disk free min_free_bytes >> execute_allowlisted s job_type)
