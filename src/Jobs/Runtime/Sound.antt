-- ===== src/Jobs/Runtime/Sound.antt =====
-- What holds of the stored jobs at all times.
use agentic_sec_blog_publish.Prelude.{
  ℕ, String, ◌≡◌, refl, Bool, true, false, Option, none, some, inl, inr, List, [], ◌∷◌, map, arith,
  All, All-append, All-imp, All-map, All-update_where, any, any-find, update_where,
  map-update_where, map-map, map-All, All-every, Distinct, Distinct-insert, Bool-cases,
}
use agentic_sec_blog_publish.Jobs.Models.{
  JobType, JobStatus, FailureCategory, JobRecord, is_running, is_terminal,
}
use agentic_sec_blog_publish.Jobs.Tables.{Tables, has_id, has_key, get, by_key, Lease}
use agentic_sec_blog_publish.Jobs.Queue.{new_job, heartbeat}
use agentic_sec_blog_publish.Jobs.Queue.Replay.{enqueue-eq-enqueued, enqueued, is_request}
use agentic_sec_blog_publish.Jobs.Pipeline.{
  delete_expired, active_lease, next_queued, started, waits_as, ended, runs_as,
}
use agentic_sec_blog_publish.Jobs.Pipeline.Ids.{ids}
use agentic_sec_blog_publish.Jobs.Pipeline.Recover.{recover_interrupted-eq-recovered, recovered_job}
use agentic_sec_blog_publish.Jobs.Pipeline.Claim.{claim_next-eq-claimed, claimed}
use agentic_sec_blog_publish.Jobs.Pipeline.Finish.{finish-eq-finished, finished}
use agentic_sec_blog_publish.Jobs.Runtime.{
  Request, enqueues, recovers, claims, finishes, beats, step, run, IsJob, keys,
}

pub record IsSound (max : ℕ) (jobs : List JobRecord) : Type 0 where
  pub ids_distinct : Distinct (ids jobs)
  pub keys_distinct : Distinct (keys jobs)
  pub each : All (IsJob max) jobs

module _ (max : ℕ) where
  -- A change of rows that keeps the id, the key and `IsJob` keeps the whole.
  IsSound-map :
      (f : JobRecord → JobRecord) (jobs : List JobRecord)
      → ((job : JobRecord) → (f job).job_id ≡ job.job_id)
      → ((job : JobRecord) → (f job).idempotency_key ≡ job.idempotency_key)
      → ((job : JobRecord) → IsJob max job → IsJob max (f job))
      → IsSound max jobs
      → IsSound max (map f jobs)
  IsSound-map f jobs same_id same_key keep s = record {
    ids_distinct =
        rw
          (
            map-map (λ job. job.job_id) f jobs,
            map-All (λ job. (f job).job_id) (λ job. job.job_id) jobs (All-every jobs same_id),
          )
          s.ids_distinct;
    keys_distinct =
        rw
          (
            map-map (λ job. job.idempotency_key) f jobs,
            map-All (λ job. (f job).idempotency_key) (λ job. job.idempotency_key) jobs
                (All-every jobs same_key),
          )
          s.keys_distinct;
    each = All-map (IsJob max) f jobs (All-imp jobs keep s.each);
  }

  IsSound-update_where :
      (p : JobRecord → Bool) (f : JobRecord → JobRecord) (jobs : List JobRecord)
      → ((job : JobRecord) → (f job).job_id ≡ job.job_id)
      → ((job : JobRecord) → (f job).idempotency_key ≡ job.idempotency_key)
      → ((job : JobRecord) → p job ≡ true → IsJob max job → IsJob max (f job))
      → IsSound max jobs
      → IsSound max (update_where p f jobs)
  IsSound-update_where p f jobs same_id same_key keep s = record {
    ids_distinct = rw (map-update_where (λ job. job.job_id) p f jobs same_id) s.ids_distinct;
    keys_distinct =
        rw (map-update_where (λ job. job.idempotency_key) p f jobs same_key) s.keys_distinct;
    each = All-update_where (IsJob max) p f jobs keep s.each;
  }

  enqueued-IsSound :
      (t : JobType) (r key id : String) (now : ℕ) (db : Tables) (known : Option JobRecord)
      (clash : Bool)
      → by_key key db ≡ known
      → any (has_id id) db.jobs ≡ clash
      → IsSound max db.jobs
      → IsSound max (enqueued t r key id now db known clash).1.jobs
  unfolding new_job by_key
  enqueued-IsSound t r key id now db (some job) clash e c s =
      elim (Bool-cases (is_request t r job)) [ inl e ↦ rw e s | inr e ↦ rw e s ]
  enqueued-IsSound t r key id now db none true e c s = s
  enqueued-IsSound t r key id now db none false e c s = record {
    ids_distinct =
        Distinct-insert (λ job. job.job_id) db.jobs (new_job t r key id now) s.ids_distinct c;
    keys_distinct =
        Distinct-insert (λ job. job.idempotency_key) db.jobs (new_job t r key id now)
          s.keys_distinct (ground (arith, any-find (has_key key) db.jobs));
    each =
        All-append (IsJob max) db.jobs (new_job t r key id now ∷ []) s.each
          ((omega arith, (refl, refl)), tt);
  }

  recovered_job-IsJob :
      (active : Option Lease) (now : ℕ) (job : JobRecord)
      → IsJob max job
      → IsJob max (recovered_job active max now job)
  recovered_job-IsJob active now job h = ground arith

  pub claimed-IsSound :
      (now lease : ℕ) (live : Tables) (active : Option Lease) (next : Option JobRecord)
      → IsSound max live.jobs
      → IsSound max (claimed now lease live active next).1.jobs
  claimed-IsSound now lease live (some _) next s = s
  claimed-IsSound now lease live none none s = s
  claimed-IsSound now lease live none (some row) s =
      IsSound-update_where (waits_as row.job_id) (started now) live.jobs (λ x. refl) (λ x. refl)
        (λ job w h. ground arith) s

  pub finished-IsSound :
      (id : String) (status : JobStatus) (c : Option FailureCategory) (m : Option String) (now : ℕ)
      (db : Tables) (known : Option JobRecord)
      → is_terminal status ≡ true
      → IsSound max db.jobs
      → IsSound max (finished id status c m now db known).1.jobs
  finished-IsSound id status c m now db none t s = s
  finished-IsSound id status c m now db (some job) t s = elim (Bool-cases (is_running job.status)) [
    | inl e ↦ rw e (
        IsSound-update_where (runs_as id) (ended status c m now) db.jobs (λ x. refl) (λ x. refl)
          (λ x w h. ground arith) s)
    | inr e ↦ rw e s
  ]

  -- Every operation keeps the jobs sound.
  pub step-IsSound :
      (r : Request) (db : Tables) → IsSound max db.jobs → IsSound max (step max r db).jobs
  unfolding step delete_expired heartbeat
  step-IsSound (enqueues t r key id now) db s =
      rw (step, enqueue-eq-enqueued t r key id now db)
        (enqueued-IsSound t r key id now db (by_key key db) (any (has_id id) db.jobs) refl refl s)
  step-IsSound (recovers now) db s =
      let active = active_lease (delete_expired now db) in
      rw (step, recover_interrupted-eq-recovered max now db s.ids_distinct)
        (IsSound-map (recovered_job active max now) db.jobs (λ x. ground arith) (λ x. ground arith)
          (recovered_job-IsJob active now) s)
  step-IsSound (claims now lease) db s =
      let live = delete_expired now db in
      rw (step, claim_next-eq-claimed now lease db s.ids_distinct)
        (claimed-IsSound now lease live (active_lease live) (next_queued live) s)
  step-IsSound (finishes id status c m now) db s = elim (Bool-cases (is_terminal status)) [
    | inl t ↦
        rw (step, finish-eq-finished id status c m now db s.ids_distinct, t)
          (finished-IsSound id status c m now db (get id db) t s)
    | inr t ↦ rw (step, finish-eq-finished id status c m now db s.ids_distinct, t) s
  ]
  step-IsSound (beats worker started_at now) db s = s

  -- From sound tables, which the empty ones are, after any sequence of operations at any times, no two jobs share an id
  -- or an idempotency key, no job has been retried more than `max_retries` times, and each job has
  -- the times that its status implies: none while QUEUED, a start while RUNNING, a start and an
  -- end once it is over.
  pub run-IsSound :
      (rs : List Request) (db : Tables) → IsSound max db.jobs → IsSound max (run max rs db).jobs
  unfolding run
  run-IsSound [] db s = s
  run-IsSound (r ∷ rs) db s = run-IsSound rs (step max r db) (step-IsSound r db s)
