-- ===== src/Jobs/Executor/Failures.antt =====
-- What a job of src/agentic_security/jobs/executor.py can raise.
use agentic_sec_blog_publish.Prelude.{ℕ, ◌≡◌, Bool, true, false, not, ◌==◌, Result, ok, err, is_ok}
use agentic_sec_blog_publish.Jobs.Models.{
  collect, daily, weekly_pack, publication_export, publication_pr,
}
use agentic_sec_blog_publish.Jobs.Executor.{
  Raised, runtime_error, job_execution_error, other_exception, Services, execute,
}

-- The `except` clauses of the worker's `run_once` meet a classified failure, or an exception that no
-- clause of the executor takes; never the disk guard's bare error.
abbrev pub is_classified : Raised → Bool
is_classified (job_execution_error category message) = true
is_classified (runtime_error text) = not (text == "DISK_GUARD")
is_classified other_exception = true
is_classified _ = false

abbrev pub is_classified_result : Result Raised (Unit {0}) → Bool
is_classified_result (ok _) = true
is_classified_result (err e) = is_classified e

-- A job of each type ends normally exactly when the service of that type does.
pub record Dispatches (s : Services) (free min_free_bytes : ℕ) : Type 0 where
  pub collects : is_ok (execute s free min_free_bytes collect) ≡ is_ok s.run_collect
  pub runs_daily : is_ok (execute s free min_free_bytes daily) ≡ is_ok s.run_daily_pipeline
  pub runs_weekly : is_ok (execute s free min_free_bytes weekly_pack) ≡ is_ok s.run_weekly_pipeline
  pub exports : is_ok (execute s free min_free_bytes publication_export) ≡ is_ok s.run_export
  pub publishes : is_ok (execute s free min_free_bytes publication_pr) ≡ is_ok s.run_publish
