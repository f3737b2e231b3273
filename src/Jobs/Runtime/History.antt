-- ===== src/Jobs/Runtime/History.antt =====
-- The life of one job: what any operation may do to it, and that a finished job is final.
use agentic_sec_blog_publish.Prelude.{
  ℕ, ◌+◌, ◌≤◌, ◌<◌, String, ◌≡◌, refl, ◌∙◌, Bool, true, false, Option, none, some, inl, inr, List,
  [], ◌∷◌, map, arith, if◌then◌else◌, ltb, update_where, ap, find-append, find-map,
  find-update_where, Bool-cases,
}
use agentic_sec_blog_publish.Jobs.Models.{
  JobType, JobStatus, FailureCategory, JobRecord, is_queued, is_running, is_terminal, running,
  queued, failed, interrupted,
}
use agentic_sec_blog_publish.Jobs.Tables.{Tables, has_id, get, by_key, Lease}
use agentic_sec_blog_publish.Jobs.Queue.{new_job, heartbeat}
use agentic_sec_blog_publish.Jobs.Queue.Replay.{enqueue-eq-enqueued, enqueued, is_request}
use agentic_sec_blog_publish.Jobs.Pipeline.{
  delete_expired, active_lease, next_queued, started, waits_as, ended, runs_as, release,
}
use agentic_sec_blog_publish.Jobs.Pipeline.Recover.{
  recover_interrupted-eq-recovered, recovered_job, is_interrupted,
}
use agentic_sec_blog_publish.Jobs.Pipeline.Claim.{claim_next-eq-claimed, claimed}
use agentic_sec_blog_publish.Jobs.Pipeline.Finish.{finish-eq-finished, finished}
use agentic_sec_blog_publish.Jobs.Runtime.{
  Request, enqueues, recovers, claims, finishes, beats, step, run,
}
use agentic_sec_blog_publish.Jobs.Runtime.Sound.{IsSound, step-IsSound}

-- The moves of a job.
pub data JobStep (max : ℕ) (a b : JobRecord) : Type 0 where
  stays : b ≡ a → JobStep max a b
  starts :
      (now : ℕ)
      → is_queued a.status ≡ true
      → b ≡ record a { status = running; started_at = some now; updated_at = now }
      → JobStep max a b
  requeues :
      (now : ℕ)
      → is_running a.status ≡ true
      → a.retry_count < max
      → b ≡ record a {
        status = queued;
        started_at = none;
        queued_at = now;
        updated_at = now;
        retry_count = a.retry_count + 1;
        failure_category = none;
        sanitized_failure_message = none;
      }
      → JobStep max a b
  gives_up :
      (now : ℕ)
      → is_running a.status ≡ true
      → max ≤ a.retry_count
      → b ≡ record a {
        status = failed;
        finished_at = some now;
        updated_at = now;
        failure_category = some interrupted;
        sanitized_failure_message = some "The worker stopped before the job completed.";
      }
      → JobStep max a b
  ends :
      (status : JobStatus) (c : Option FailureCategory) (m : Option String) (now : ℕ)
      → is_running a.status ≡ true
      → is_terminal status ≡ true
      → b ≡ record a {
        status = status;
        finished_at = some now;
        updated_at = now;
        failure_category = c;
        sanitized_failure_message = m;
      }
      → JobStep max a b

-- A job that was found by its id is found by it again, one move on.
abbrev pub Follows : ℕ → String → JobRecord → Tables → Type 0
Follows max id job db = (job' : JobRecord) × (get id db ≡ some job') × JobStep max job job'

module _ (max : ℕ) (id : String) (job : JobRecord) (db : Tables)
    (found : get id db ≡ some job) where
  enqueued-Follows :
      (t : JobType) (r key id' : String) (now : ℕ) (known : Option JobRecord) (clash : Bool)
      → Follows max id job (enqueued t r key id' now db known clash).1
  unfolding get
  enqueued-Follows t r key id' now (some old) clash = elim (Bool-cases (is_request t r old)) [
    | inl e ↦ rw e (job, found, stays refl)
    | inr e ↦ rw e (job, found, stays refl)
  ]
  enqueued-Follows t r key id' now none true = (job, found, stays refl)
  enqueued-Follows t r key id' now none false = (
    job,
    ground (arith, find-append (has_id id) db.jobs (new_job t r key id' now ∷ [])),
    stays refl,
  )

  recovered-Follows :
      (active : Option Lease) (now : ℕ)
      → Follows max id job (record db { jobs = map (recovered_job active max now) db.jobs })
  unfolding get
  recovered-Follows active now = (
    recovered_job active max now job,
    ground (arith, find-map (has_id id) (recovered_job active max now) db.jobs (λ x. ground arith)),
    elim (Bool-cases (is_interrupted active max now job)) [
      | inr e ↦ stays (rw e)
      | inl e ↦ elim (Bool-cases (ltb job.retry_count max)) [
        | inl less ↦ requeues now (ground arith) (ground arith) (rw (e, less))
        | inr full ↦ gives_up now (ground arith) (ground arith) (rw (e, full))
      ]
    ],
  )

  updated-Follows :
      (p : JobRecord → Bool) (f : JobRecord → JobRecord) (db' : Tables)
      → db'.jobs ≡ update_where p f db.jobs
      → ((x : JobRecord) → (f x).job_id ≡ x.job_id)
      → (p job ≡ true → JobStep max job (f job))
      → Follows max id job db'
  unfolding get
  updated-Follows p f db' e same move = (
    (if p job then f job else job),
    rw e (ground (arith, find-update_where (has_id id) p f db.jobs (λ x. rw (same x)))),
    elim (Bool-cases (p job)) [ inl y ↦ rw y (move y) | inr n ↦ rw n (stays refl) ],
  )

  claimed-Follows :
      (now lease : ℕ) (live : Tables) (active : Option Lease) (next : Option JobRecord)
      → live.jobs ≡ db.jobs
      → Follows max id job (claimed now lease live active next).1
  unfolding get
  claimed-Follows now lease live (some _) next e = (job, rw e found, stays refl)
  claimed-Follows now lease live none none e = (job, rw e found, stays refl)
  claimed-Follows now lease live none (some row) e =
      updated-Follows (waits_as row.job_id) (started now) (claimed now lease live none (some row)).1
        (rw e) (λ x. refl) (λ w. starts now (ground arith) refl)

  finished-Follows :
      (id' : String) (status : JobStatus) (c : Option FailureCategory) (m : Option String) (now : ℕ)
      (known : Option JobRecord)
      → is_terminal status ≡ true
      → Follows max id job (finished id' status c m now db known).1
  finished-Follows id' status c m now none t = (job, found, stays refl)
  finished-Follows id' status c m now (some x) t = elim (Bool-cases (is_running x.status)) [
    | inl e ↦ rw e (
        updated-Follows (runs_as id') (ended status c m now)
          (record db {
            jobs = update_where (runs_as id') (ended status c m now) db.jobs;
            leases = release id' db.leases;
          })
          refl (λ y. refl) (λ w. ends status c m now (ground arith) t refl))
    | inr e ↦ rw e (job, found, stays refl)
  ]

  pub step-Follows : (r : Request) → IsSound max db.jobs → Follows max id job (step max r db)
  unfolding step delete_expired heartbeat get
  step-Follows (enqueues t r key id' now) s =
      rw (step, enqueue-eq-enqueued t r key id' now db)
        (enqueued-Follows t r key id' now (by_key key db) _)
  step-Follows (recovers now) s =
      rw (step, recover_interrupted-eq-recovered max now db s.ids_distinct)
        (recovered-Follows (active_lease (delete_expired now db)) now)
  step-Follows (claims now lease) s =
      let live = delete_expired now db in
      rw (step, claim_next-eq-claimed now lease db s.ids_distinct)
        (claimed-Follows now lease live (active_lease live) (next_queued live) refl)
  step-Follows (finishes id' status c m now) s = elim (Bool-cases (is_terminal status)) [
    | inl t ↦
        rw (step, finish-eq-finished id' status c m now db s.ids_distinct, t)
          (finished-Follows id' status c m now (get id' db) t)
    | inr t ↦
        rw (step, finish-eq-finished id' status c m now db s.ids_distinct, t)
          (job, found, stays refl)
  ]
  step-Follows (beats worker started_at now) s = (job, found, stays refl)

-- A move from a terminal status is no move.
JobStep-final : (max : ℕ) (a b : JobRecord) → is_terminal a.status ≡ true → JobStep max a b → b ≡ a
JobStep-final max a b t (stays e) = e
JobStep-final max a b t (starts now q e) = absurd (ground arith)
JobStep-final max a b t (requeues now r l e) = absurd (ground arith)
JobStep-final max a b t (gives_up now r l e) = absurd (ground arith)
JobStep-final max a b t (ends s c m now r l e) = absurd (ground arith)

-- From sound tables, once a stored job has SUCCEEDED, FAILED or is CANCELLED, no sequence of
-- operations changes its record.
pub run-final :
    (max : ℕ) (rs : List Request) (db : Tables) (id : String) (job : JobRecord)
    → IsSound max db.jobs
    → get id db ≡ some job
    → is_terminal job.status ≡ true
    → get id (run max rs db) ≡ some job
unfolding run
run-final max [] db id job s found t = found
run-final max (r ∷ rs) db id job s found t =
    let (job', found', moved) = step-Follows max id job db found r s in
    run-final max rs (step max r db) id job (step-IsSound max r db s)
      (found' ∙ ap some (JobStep-final max job job' t moved)) t
