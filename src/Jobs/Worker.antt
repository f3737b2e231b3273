-- ===== src/Jobs/Worker.antt =====
-- src/agentic_security/jobs/worker.py: one turn of a worker. The file lock of jobs/lock.py, the
-- clock, and what the executor does with a job are arguments; so are the operations of other
-- processes and of the heartbeat thread while the job runs.
pub mod Completes
pub mod Exclusive
pub mod Drains
use agentic_sec_blog_publish.Prelude.{
  ℕ, String, ◌≡◌, Bool, true, false, Option, none, some, List, [], ◌∷◌, Result, ok, err,
  if◌then◌else◌, All,
}
use agentic_sec_blog_publish.Jobs.Models.{
  JobStatus, succeeded, failed, FailureCategory, internal_error, JobRecord,
}
use agentic_sec_blog_publish.Jobs.Tables.{Tables, JobError}
use agentic_sec_blog_publish.Jobs.Queue.{heartbeat}
use agentic_sec_blog_publish.Jobs.Pipeline.{recover_interrupted, claim_next, finish, ended}
use agentic_sec_blog_publish.Jobs.Executor.{Raised, job_execution_error}
use agentic_sec_blog_publish.Jobs.Runtime.{Request, enqueues, beats, run}

-- The configuration of a worker, and the times at which a turn reads the clock.
pub record Turn : Type 0 where
  pub worker_id : String
  pub started_at : ℕ
  pub max_restart_retries : ℕ
  pub lease : ℕ
  pub beat_at : ℕ
  pub recover_at : ℕ
  pub claim_at : ℕ
  pub finish_at : ℕ

-- The status, category and message that the end of the execution leads to.
pub record Verdict : Type 0 where
  pub status : JobStatus
  pub category : Option FailureCategory
  pub message : Option String

unfoldable pub verdict : Result Raised (Unit {0}) → Verdict
verdict (ok _) = record { status = succeeded; category = none; message = none }
verdict (err (job_execution_error category message)) = record {
  status = failed;
  category = some category;
  message = some message;
}
verdict (err _) = record {
  status = failed;
  category = some internal_error;
  message = some "The job failed unexpectedly; inspect private service logs.";
}

-- `return True` after a `finish` that did not raise.
pub worked : Result JobError JobRecord × Tables → Result JobError Bool × Tables
worked (ok _, db) = (ok true, db)
worked (err e, db) = (err e, db)

pub complete : Turn → Result Raised (Unit {0}) → JobRecord → Tables → Result JobError Bool × Tables
unfolding verdict worked
complete turn outcome job db =
    let v = verdict outcome in
    worked (finish job.job_id v.status v.category v.message turn.finish_at db)

pub work :
    Turn
    → (JobRecord → Result Raised (Unit {0}))
    → List Request
    → Result JobError (Option JobRecord) × Tables
    → Result JobError Bool × Tables
unfolding complete
work turn execute meanwhile (err e, db) = (err e, db)
work turn execute meanwhile (ok none, db) = (ok false, db)
work turn execute meanwhile (ok (some job), db) =
    complete turn (execute job) job (run turn.max_restart_retries meanwhile db)

-- The tables when the turn asks for a job.
unfoldable pub before_claim : Turn → Tables → Tables
before_claim turn db =
    (recover_interrupted turn.max_restart_retries turn.recover_at
      (heartbeat turn.worker_id turn.started_at turn.beat_at db)).1

unfoldable pub run_once :
    Turn
    → (acquired : Bool) → (JobRecord → Result Raised (Unit {0}))
    → (meanwhile : List Request) → Tables
    → Result JobError Bool × Tables
unfolding work before_claim
run_once turn acquired execute meanwhile db =
    if acquired
    then work turn execute meanwhile (claim_next turn.claim_at turn.lease (before_claim turn db))
    else (ok false, heartbeat turn.worker_id turn.started_at turn.beat_at db)

-- What the API and the heartbeat thread call while the worker holds the lock.
abbrev pub IsClient : Request → Type 0
IsClient (enqueues _ _ _ _ _) = Unit
IsClient (beats _ _ _) = Unit
IsClient _ = ⊥

-- After a turn, the rest of the loop, unless the turn raised.
abbrev pub unless_raised :
    Result JobError Bool
    → Tables
    → Result JobError (Unit {0}) × Tables
    → Result JobError (Unit {0}) × Tables
unless_raised (ok worked) db rest = rest
unless_raised (err e) db rest = (err e, db)

-- One turn of the loop: whether it gets the file lock, what the executor does with its job, and what
-- others call meanwhile.
pub record Round : Type 0 where
  pub turn : Turn
  pub acquired : Bool
  pub executor : JobRecord → Result Raised (Unit {0})
  pub meanwhile : List Request

abbrev pub run_round : Round → Tables → Result JobError Bool × Tables
run_round r db = run_once r.turn r.acquired r.executor r.meanwhile db

-- `run_forever`, for as many turns as are given.
unfoldable pub run_forever : List Round → Tables → Result JobError (Unit {0}) × Tables
unfolding run_once
run_forever [] db = (ok tt, db)
run_forever (r ∷ rounds) db =
    let rest = run_forever rounds (run_round r db).1 in
    unless_raised (run_round r db).0 (run_round r db).1 rest
