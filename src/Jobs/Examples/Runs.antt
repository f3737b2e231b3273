-- ===== src/Jobs/Examples/Runs.antt =====
-- The laws of the jobs at concrete tables: histories, a worker's turn, the executor.
use agentic_sec_blog_publish.Prelude.{
  arith, ℕ, ◌≤◌, ◌≡◌, refl, true, none, some, List, [], ◌∷◌, Result, ok, err, order_by, ap, All,
}
use agentic_sec_blog_publish.Jobs.Models.{daily, succeeded, failed, JobRecord, collection_failed}
use agentic_sec_blog_publish.Jobs.Tables.{Tables, get}
use agentic_sec_blog_publish.Jobs.Queue.{heartbeat, upsert_heartbeat}
use agentic_sec_blog_publish.Jobs.Pipeline.{
  recover_interrupted, claim_next, delete_expired, active_lease, next_queued, started,
}
use agentic_sec_blog_publish.Jobs.Pipeline.Recover.{recover_interrupted-eq-recovered}
use agentic_sec_blog_publish.Jobs.Pipeline.Claim.{claim_next-eq-claimed}
use agentic_sec_blog_publish.Jobs.Executor.{
  Raised, job_execution_error, file_not_found, value_error, Services,
}
use agentic_sec_blog_publish.Jobs.Runtime.{
  Request, enqueues, recovers, claims, finishes, beats, run, empty_tables,
}
use agentic_sec_blog_publish.Jobs.Runtime.Sound.{IsSound, run-IsSound}
use agentic_sec_blog_publish.Jobs.Runtime.History.{run-final}
use agentic_sec_blog_publish.Jobs.Worker.{Turn, before_claim, run_once}
use agentic_sec_blog_publish.Jobs.Worker.Completes.{run_once-completes, IsDone}
use agentic_sec_blog_publish.Jobs.Worker.Drains.{run_forever-drains, unfinished, IsFree, IsAlone}
use agentic_sec_blog_publish.Jobs.Worker.{Round, run_forever}
use agentic_sec_blog_publish.Jobs.Worker.Exclusive.{running-le-one, running_count}
use agentic_sec_blog_publish.Jobs.Examples.{waiting, over, tables, claimed_tables, tables-IsSound}

abbrev day : List Request
day =
    enqueues daily "api" "k" "J1" 1
    ∷ claims 2 100
    ∷ recovers 200
    ∷ claims 201 100
    ∷ finishes "J1" succeeded none none 220
    ∷ []

run-IsSound_example : IsSound 3 (run 3 day empty_tables).jobs
run-IsSound_example =
    run-IsSound 3 day empty_tables (record { ids_distinct = tt; keys_distinct = tt; each = tt })

run-final_example :
    get "C" (run 3 (recovers 60 ∷ claims 61 30 ∷ finishes "C" failed none none 70 ∷ []) tables)
    ≡ some over
unfolding get
run-final_example =
    run-final 3 (recovers 60 ∷ claims 61 30 ∷ finishes "C" failed none none 70 ∷ []) tables "C" over
      tables-IsSound refl refl

abbrev turn : Turn
turn = record {
  worker_id = "w";
  started_at = 50;
  max_restart_retries = 3;
  lease = 30;
  beat_at = 40;
  recover_at = 40;
  claim_at = 60;
  finish_at = 70;
}

-- The executor's only job fails; a client enqueues while it runs.
abbrev fails : JobRecord → Result Raised (Unit {0})
fails job = err (job_execution_error collection_failed "no source")

abbrev clients : List Request
clients = enqueues daily "api" "k9" "Z" 65 ∷ beats "w" 50 66 ∷ []

abbrev beaten : Tables
beaten = record tables {
  heartbeats = record { worker_id = "w"; started_at = 50; heartbeat_at = 40 } ∷ [];
}

abbrev beaten_claimed : Tables
beaten_claimed = record beaten { jobs = claimed_tables.jobs; leases = claimed_tables.leases }

recovered : recover_interrupted 3 40 beaten ≡ (0, beaten)
unfolding delete_expired active_lease
recovered = recover_interrupted-eq-recovered 3 40 beaten (tables-IsSound.ids_distinct)

before : before_claim turn tables ≡ beaten
unfolding before_claim heartbeat upsert_heartbeat
before = ap (λ (r : ℕ × Tables). r.1) recovered

claims_a :
    claim_next 60 30 (before_claim turn tables) ≡ (ok (some (started 60 waiting)), beaten_claimed)
unfolding delete_expired active_lease next_queued order_by
claims_a = rw before (claim_next-eq-claimed 60 30 beaten (tables-IsSound.ids_distinct))

run_once-completes_example :
    IsDone turn fails clients
      (tt, (tt, tt))
      tables
      (started 60 waiting)
      (run_once turn true fails clients tables)
run_once-completes_example =
    run_once-completes turn fails clients (tt, (tt, tt)) tables (started 60 waiting) beaten_claimed
      tables-IsSound claims_a

-- A collection that fails, then one that ends normally.
abbrev late : List Round
late =
    record {
      turn = record turn { recover_at = 500; claim_at = 510 };
      acquired = true;
      executor = fails;
      meanwhile = [];
    }
    ∷ record {
      turn = record turn { recover_at = 600; claim_at = 610 };
      acquired = true;
      executor = λ job. ok tt;
      meanwhile = [];
    }
    ∷ []

late-IsAlone : All (IsAlone 3) late
late-IsAlone = (
  record { locked = refl; quiet = refl; same_limit = refl },
  (record { locked = refl; quiet = refl; same_limit = refl }, tt),
)

late-IsFree : IsFree late tables
unfolding delete_expired active_lease
late-IsFree = refl

run_forever-drains_example :
    ((run_forever late tables).0 ≡ ok tt) × (unfinished (run_forever late tables).1.jobs ≡ 0)
run_forever-drains_example =
    run_forever-drains 3 late tables tables-IsSound late-IsAlone late-IsFree (omega arith)

running-le-one_example : running_count (claim_next 60 30 (recover_interrupted 3 60 tables).1).1 ≤ 1
unfolding delete_expired active_lease
running-le-one_example =
    running-le-one 3 60 60 30 tables tables-IsSound
      (rw (recover_interrupted-eq-recovered 3 60 tables (tables-IsSound.ids_distinct)) refl)

abbrev services : Services
services = record {
  run_collect = err file_not_found;
  run_daily_pipeline = ok tt;
  run_weekly_pipeline = err value_error;
  run_export = ok tt;
  run_publish = ok tt;
}
