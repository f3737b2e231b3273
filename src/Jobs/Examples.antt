-- ===== src/Jobs/Examples.antt =====
-- The laws of the jobs at concrete tables: the operations of the store.
pub mod Runs
use agentic_sec_blog_publish.Prelude.{
  ℕ, ◌≤◌, String, ◌≡◌, refl, Bool, true, false, Option, none, some, inl, inr, List, [], ◌∷◌, map,
  arith, count_where, order_by, text_leb, Distinct, All, is_some, Result, ok, err, is_ok, ◌<◌,
  is_member,
}
use agentic_sec_blog_publish.Jobs.Models.{
  JobType, collect, daily, publication_export, research, JobStatus, queued, running, succeeded,
  failed, JobRecord, JobType-discrete, is_terminal, is_queued, is_running, FailureCategory,
  collection_failed, interrupted,
}
use agentic_sec_blog_publish.Jobs.Tables.{
  Lease, Tables, JobError, idempotency_conflict, get, by_key, has_id,
}
use agentic_sec_blog_publish.Jobs.Queue.{enqueue, new_job}
use agentic_sec_blog_publish.Jobs.Queue.Replay.{
  enqueue-eq-enqueued, enqueue-enqueue, enqueue_conflict, enqueued,
}
use agentic_sec_blog_publish.Jobs.Pipeline.{
  recover_interrupted, claim_next, finish, delete_expired, active_lease, next_queued, release,
  started, ended, claim_leb,
}
use agentic_sec_blog_publish.Jobs.Pipeline.Recover.{recover_interrupted-eq-recovered}
use agentic_sec_blog_publish.Jobs.Pipeline.Claim.{claim_next-eq-claimed}
use agentic_sec_blog_publish.Jobs.Pipeline.Claim.Outcome.{Claimed, claim_next-Claimed}
use agentic_sec_blog_publish.Jobs.Pipeline.Finish.{finish-eq-finished, finished}
use agentic_sec_blog_publish.Jobs.Executor.{Raised, job_execution_error}
use agentic_sec_blog_publish.Jobs.Runtime.{
  Request, enqueues, recovers, claims, finishes, beats, step, run, empty_tables,
}
use agentic_sec_blog_publish.Jobs.Runtime.Sound.{IsSound, run-IsSound}
use agentic_sec_blog_publish.Jobs.Runtime.History.{step-Follows, run-final, Follows}
use agentic_sec_blog_publish.Jobs.Worker.{Turn, before_claim, run_once}
use agentic_sec_blog_publish.Jobs.Worker.Completes.{run_once-completes, IsDone}
use agentic_sec_blog_publish.Jobs.Worker.Exclusive.{running-le-one}

abbrev pub waiting : JobRecord
waiting = record {
  job_id = "A";
  job_type = collect;
  requested_by = "api";
  idempotency_key = "k1";
  created_at = 10;
  queued_at = 10;
  started_at = none;
  finished_at = none;
  updated_at = 10;
  status = queued;
  retry_count = 0;
  failure_category = none;
  sanitized_failure_message = none;
}

-- Left RUNNING by a worker that crashed.
abbrev pub crashed : JobRecord
crashed = record waiting {
  job_id = "B";
  idempotency_key = "k2";
  status = running;
  started_at = some 20;
}

abbrev pub over : JobRecord
over = record waiting {
  job_id = "C";
  idempotency_key = "k3";
  status = succeeded;
  started_at = some 20;
  finished_at = some 30;
}

abbrev queued_d : JobRecord
queued_d = record waiting {
  job_id = "D";
  job_type = daily;
  requested_by = "cli";
  idempotency_key = "k4";
  created_at = 60;
  queued_at = 60;
  updated_at = 60;
}

abbrev pub tables : Tables
tables = record {
  jobs = crashed ∷ waiting ∷ over ∷ [];
  leases =
      record { name = "mutating-pipeline"; holder_id = "B"; acquired_at = 20; expires_at = 50 }
      ∷ [];
  heartbeats = [];
}

tables-Distinct : Distinct (map (λ (job : JobRecord). job.job_id) (tables.jobs))
tables-Distinct = ((refl, (refl, tt)), ((refl, tt), (tt, tt)))

pub tables-IsSound : IsSound 3 (tables.jobs)
tables-IsSound = record {
  ids_distinct = tables-Distinct;
  keys_distinct = ((refl, (refl, tt)), ((refl, tt), (tt, tt)));
  each = (
    (omega arith, (refl, refl)),
    ((omega arith, (refl, refl)), ((omega arith, (refl, refl)), tt)),
  );
}

abbrev with_new : Tables
with_new = record tables { jobs = crashed ∷ waiting ∷ over ∷ queued_d ∷ [] }

enqueue-enqueue_example : enqueue daily "cli" "k4" "E" 70 with_new ≡ (ok (queued_d, true), with_new)
unfolding by_key new_job
enqueue-enqueue_example =
    enqueue-enqueue daily "cli" "k4" "D" "E" 60 70 tables with_new queued_d false first
  where
    first : enqueue daily "cli" "k4" "D" 60 tables ≡ (ok (queued_d, false), with_new)
    first = enqueue-eq-enqueued daily "cli" "k4" "D" 60 tables

-- Three jobs are RUNNING: "B" holds the pipeline for one more tick, "A" may be retried once more, and
-- the retries of "C" are used up.
abbrev tried : JobRecord
tried = record crashed { job_id = "A"; idempotency_key = "k1"; retry_count = 2 }

abbrev worn : JobRecord
worn = record crashed { job_id = "C"; idempotency_key = "k3"; retry_count = 3 }

abbrev held_lease : Lease
held_lease = record {
  name = "mutating-pipeline";
  holder_id = "B";
  acquired_at = 20;
  expires_at = 61;
}

abbrev other_lease : Lease
other_lease = record { name = "export"; holder_id = "B"; acquired_at = 20; expires_at = 60 }

abbrev worn_tables : Tables
worn_tables = record tables {
  jobs = crashed ∷ tried ∷ worn ∷ [];
  leases = other_lease ∷ held_lease ∷ [];
}

recover_interrupted-eq-recovered_example : recover_interrupted 3 60 worn_tables ≡ (
  2,
  record tables {
    jobs =
        crashed
        ∷ record tried {
          status = queued;
          queued_at = 60;
          started_at = none;
          updated_at = 60;
          retry_count = 3;
        }
        ∷ record worn {
          status = failed;
          finished_at = some 60;
          updated_at = 60;
          failure_category = some interrupted;
          sanitized_failure_message = some "The worker stopped before the job completed.";
        }
        ∷ [];
    leases = held_lease ∷ [];
  },
)
unfolding delete_expired active_lease
recover_interrupted-eq-recovered_example =
    recover_interrupted-eq-recovered 3 60 worn_tables tables-Distinct

abbrev pub claimed_tables : Tables
claimed_tables = record tables {
  jobs = crashed ∷ started 60 waiting ∷ over ∷ [];
  leases =
      record { name = "mutating-pipeline"; holder_id = "A"; acquired_at = 60; expires_at = 90 }
      ∷ [];
}

-- Two jobs wait, the younger one first in the table.
abbrev two_waiting : Tables
two_waiting = record tables { jobs = queued_d ∷ waiting ∷ over ∷ [] }

two_waiting-Distinct : Distinct (map (λ (job : JobRecord). job.job_id) (two_waiting.jobs))
two_waiting-Distinct = ((refl, (refl, tt)), ((refl, tt), (tt, tt)))

claim_next-Claimed_example : Claimed 60 30 two_waiting (
  ok (some (record waiting { status = running; started_at = some 60; updated_at = 60 })),
  record two_waiting {
    jobs =
        queued_d
        ∷ record waiting { status = running; started_at = some 60; updated_at = 60 }
        ∷ over
        ∷ [];
    leases =
        record { name = "mutating-pipeline"; holder_id = "A"; acquired_at = 60; expires_at = 90 }
        ∷ [];
  },
)
unfolding claim_next get delete_expired active_lease next_queued order_by text_leb
claim_next-Claimed_example = claim_next-Claimed 60 30 two_waiting two_waiting-Distinct

pub claim_run : claim_next 60 30 tables ≡ (ok (some (started 60 waiting)), claimed_tables)
unfolding delete_expired active_lease next_queued order_by
claim_run = claim_next-eq-claimed 60 30 tables tables-Distinct

abbrev leased_tables : Tables
leased_tables = record tables { leases = held_lease ∷ other_lease ∷ [] }

finish-eq-finished_example :
    finish "B" failed (some collection_failed) (some "no source") 40 leased_tables ≡ (
      ok (record crashed {
        status = failed;
        finished_at = some 40;
        updated_at = 40;
        failure_category = some collection_failed;
        sanitized_failure_message = some "no source";
      }),
      record tables {
        jobs =
            record crashed {
              status = failed;
              finished_at = some 40;
              updated_at = 40;
              failure_category = some collection_failed;
              sanitized_failure_message = some "no source";
            }
            ∷ waiting
            ∷ over
            ∷ [];
        leases = other_lease ∷ [];
      },
    )
unfolding get release
finish-eq-finished_example =
    finish-eq-finished "B" failed (some collection_failed) (some "no source") 40 leased_tables
      tables-Distinct
