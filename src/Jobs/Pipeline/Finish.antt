-- ===== src/Jobs/Pipeline/Finish.antt =====
-- `finish`: what it does on each branch.
use agentic_sec_blog_publish.Prelude.{
  ℕ, String, ◌≡◌, refl, Option, none, some, inl, inr, arith, Result, ok, err, if◌then◌else◌, find,
  find_sat, find-update_where, update_where, Distinct, Option-cases,
}
use agentic_sec_blog_publish.Jobs.Models.{
  JobRecord, JobStatus, FailureCategory, is_running, is_terminal,
}
use agentic_sec_blog_publish.Jobs.Tables.{
  Tables, JobError, requires_terminal, not_running, has_id, get,
}
use agentic_sec_blog_publish.Jobs.Pipeline.Ids.{ids, count_by_id}
use agentic_sec_blog_publish.Jobs.Pipeline.{runs_as, ended, release, finish}

module _ (id : String) (status : JobStatus) (category : Option FailureCategory)
    (message : Option String) (now : ℕ) (db : Tables) where
  abbrev pub Finished : Type 0
  Finished = Result JobError JobRecord × Tables

  -- The job at its end.
  abbrev pub closed : JobRecord → JobRecord
  closed job = record job {
    status = status;
    finished_at = some now;
    updated_at = now;
    failure_category = category;
    sanitized_failure_message = message;
  }

  -- What `finish` does with the job that has the id.
  abbrev pub finished : Option JobRecord → Finished
  finished none = (err not_running, db)
  finished (some job) =
      if is_running job.status
      then (
        ok (closed job),
        record db {
          jobs = update_where (runs_as id) closed db.jobs;
          leases = release id db.leases;
        },
      )
      else (err not_running, db)

  -- When no two jobs share an id, `finish` refuses a status that is not terminal, and a job that
  -- is not there or not RUNNING, and then changes nothing; otherwise the job gets the status, the
  -- failure and its end time, and the pipeline lease that it holds is dropped.
  pub finish-eq-finished :
      Distinct (ids db.jobs)
      → finish id status category message now db
        ≡ (if is_terminal status then finished (get id db) else (err requires_terminal, db))
  unfolding finish get
  finish-eq-finished d = elim (Option-cases (find (has_id id) db.jobs)) [
    | inl e ↦ ground (arith, count_by_id id (λ job. is_running job.status) db.jobs d)
    | inr (job, e) ↦ ground (
      arith,
      count_by_id id (λ job. is_running job.status) db.jobs d,
      find-update_where (has_id id) (runs_as id) (ended status category message now) db.jobs
          (λ x. refl),
      find_sat (has_id id) db.jobs e,
    )
  ]
