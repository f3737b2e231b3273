-- ===== src/Jobs/Worker/Completes.antt =====
-- A turn that claims a job carries it to its end.
use agentic_sec_blog_publish.Prelude.{
  is_ok, ℕ, String, ◌≡◌, refl, subst, ap, ℕ, find-update_where, Bool, true, false, Option, none,
  some, inl, inr, List, [], ◌∷◌, ◌++◌, arith, ◌==◌, eq_refl, Result, ok, err, All, find,
  find-append, Bool-cases,
}
use agentic_sec_blog_publish.Jobs.Models.{is_succeeded, JobType, JobRecord, running, is_terminal}
use agentic_sec_blog_publish.Jobs.Tables.{
  Tables, JobError, get, by_key, Lease, pipeline_lease, has_id,
}
use agentic_sec_blog_publish.Jobs.Queue.{heartbeat, new_job}
use agentic_sec_blog_publish.Jobs.Queue.Replay.{enqueue-eq-enqueued, enqueued, is_request}
use agentic_sec_blog_publish.Jobs.Pipeline.{
  claim_next, delete_expired, active_lease, runs_as, release, ended,
}
use agentic_sec_blog_publish.Jobs.Pipeline.Claim.{claim_next-Claims, lease_for}
use agentic_sec_blog_publish.Jobs.Pipeline.Finish.{finish-eq-finished}
use agentic_sec_blog_publish.Jobs.Executor.{Raised, job_execution_error}
use agentic_sec_blog_publish.Jobs.Runtime.{
  Request, enqueues, recovers, claims, finishes, beats, step, run,
}
use agentic_sec_blog_publish.Jobs.Runtime.Sound.{IsSound, step-IsSound, run-IsSound}
use agentic_sec_blog_publish.Jobs.Worker.{
  Turn, verdict, worked, complete, before_claim, run_once, IsClient,
}

-- A client's request leaves a stored job and the leases alone.
pub record Untouched (id : String) (job : JobRecord) (leases : List Lease) (db : Tables)
    : Type 0 where
  pub stored : get id db ≡ some job
  pub held : db.leases ≡ leases

enqueued-Untouched :
    (t : JobType) (r key id' : String) (now : ℕ) (id : String) (job : JobRecord)
    (leases : List Lease) (db : Tables) (known : Option JobRecord) (clash : Bool)
    → Untouched id job leases db
    → Untouched id job leases (enqueued t r key id' now db known clash).1
unfolding get
enqueued-Untouched t r key id' now id job leases db (some old) clash u =
    elim (Bool-cases (is_request t r old)) [ inl e ↦ rw e u | inr e ↦ rw e u ]
enqueued-Untouched t r key id' now id job leases db none true u = u
enqueued-Untouched t r key id' now id job leases db none false u = record {
  stored = ground (arith, u.stored, find-append (has_id id) db.jobs (new_job t r key id' now ∷ []));
  held = u.held;
}

step-Untouched :
    (max : ℕ) (id : String) (job : JobRecord) (leases : List Lease) (r : Request) (db : Tables)
    → IsClient r
    → Untouched id job leases db
    → Untouched id job leases (step max r db)
unfolding step heartbeat get
step-Untouched max id job leases (enqueues t r key id' now) db c u =
    rw (step, enqueue-eq-enqueued t r key id' now db)
      (enqueued-Untouched t r key id' now id job leases db (by_key key db) _ u)
step-Untouched max id job leases (recovers now) db c u = elim c [ ]
step-Untouched max id job leases (claims now lease) db c u = elim c [ ]
step-Untouched max id job leases (finishes a b d e f) db c u = elim c [ ]
step-Untouched max id job leases (beats worker started_at now) db c u = record {
  stored = u.stored;
  held = u.held;
}

run-Untouched :
    (max : ℕ) (id : String) (job : JobRecord) (leases : List Lease) (rs : List Request)
    (db : Tables)
    → All IsClient rs
    → Untouched id job leases db
    → Untouched id job leases (run max rs db)
unfolding run
run-Untouched max id job leases [] db c u = u
run-Untouched max id job leases (r ∷ rs) db c u =
    run-Untouched max id job leases rs (step max r db) c.1
      (step-Untouched max id job leases r db c.0 u)

released :
    (id : String) (leases : List Lease) (lease : Lease)
    → find (λ l. l.name == pipeline_lease) leases ≡ none
    → (lease.name == pipeline_lease) ≡ true
    → (lease.holder_id == id) ≡ true
    → find (λ l. l.name == pipeline_lease) (release id (leases ++ (lease ∷ []))) ≡ none
unfolding release
released id [] lease h n i = ground arith
released id (l ∷ leases) lease h n i = ground (arith, released id leases lease)

pub verdict_terminal : (r : Result Raised (Unit {0})) → is_terminal (verdict r).status ≡ true
unfolding verdict
verdict_terminal (ok _) = refl
verdict_terminal (err (job_execution_error category message)) = refl
verdict_terminal (err _) = refl

verdict_succeeds : (r : Result Raised (Unit {0})) → is_succeeded (verdict r).status ≡ is_ok r
unfolding verdict
verdict_succeeds (ok _) = refl
verdict_succeeds (err e) = ground arith

module _ (turn : Turn) (execute : JobRecord → Result Raised (Unit {0})) (meanwhile : List Request)
    (clients : All IsClient meanwhile) (db : Tables) (job : JobRecord) where
  -- The record that the turn leaves of the job.
  abbrev pub outcome : JobRecord
  outcome = record job {
    status = (verdict (execute job)).status;
    finished_at = some turn.finish_at;
    updated_at = turn.finish_at;
    failure_category = (verdict (execute job)).category;
    sanitized_failure_message = (verdict (execute job)).message;
  }

  -- The end of a job that a worker holds.
  abbrev pub IsDone : Result JobError Bool × Tables → Type 0
  IsDone r =
      (r.0 ≡ ok true)
      × (get job.job_id r.1 ≡ some outcome)
      × (is_succeeded outcome.status ≡ is_ok (execute job))
      × (active_lease r.1 ≡ none)

  complete-IsDone :
      (before : Tables)
      → IsSound turn.max_restart_retries before.jobs
      → job.status ≡ running
      → (free : List Lease) → find (λ l. l.name == pipeline_lease) free ≡ none
      → Untouched job.job_id job (free ++ (lease_for turn.claim_at turn.lease job ∷ [])) before
      → IsDone (complete turn (execute job) job before)
  unfolding complete worked get active_lease
  complete-IsDone before s r free none_held u =
      let v = verdict (execute job) in
      let f =
        finish-eq-finished job.job_id v.status v.category v.message turn.finish_at before
          s.ids_distinct in
      let rel =
        released job.job_id free (lease_for turn.claim_at turn.lease job) none_held
          (eq_refl pipeline_lease) (eq_refl job.job_id) in
      rw (complete, f, verdict_terminal (execute job), u.stored, r)
        (
          refl,
          ground (
            arith,
            u.stored,
            find-update_where (has_id job.job_id) (runs_as job.job_id)
                (ended v.status v.category v.message turn.finish_at) before.jobs (λ x. refl),
            eq_refl job.job_id,
          ),
          verdict_succeeds (execute (record job { status = running })),
          rw u.held rel,
        )

  before-IsSound :
      IsSound turn.max_restart_retries db.jobs
      → IsSound turn.max_restart_retries (before_claim turn db).jobs
  unfolding before_claim step
  before-IsSound s =
      let beaten = heartbeat turn.worker_id turn.started_at turn.beat_at db in
      step-IsSound turn.max_restart_retries (recovers turn.recover_at) beaten (
        step-IsSound turn.max_restart_retries (beats turn.worker_id turn.started_at turn.beat_at) db
          s)

  -- From sound tables, when a turn that got the lock claims a job, `run_once` returns True;
  -- whatever the execution raised and whatever clients enqueued meanwhile, the job then has the
  -- status, the failure and the end time of the verdict, SUCCEEDED exactly when the execution
  -- ended normally, and no pipeline lease is left.
  pub run_once-completes :
      (claimed_tables : Tables)
      → IsSound turn.max_restart_retries db.jobs
      → claim_next turn.claim_at turn.lease (before_claim turn db) ≡ (ok (some job), claimed_tables)
      → IsDone (run_once turn true execute meanwhile db)
  unfolding run_once active_lease step
  run_once-completes tables s h =
      let before = before_claim turn db in
      let max = turn.max_restart_retries in
      let sb = before-IsSound s in
      let c = claim_next-Claims turn.claim_at turn.lease before tables job sb.ids_distinct h in
      let sc : IsSound max tables.jobs =
        subst (λ (t : Tables). IsSound max t.jobs)
          (ap (λ (r : Result JobError (Option JobRecord) × Tables). r.1) h)
          (step-IsSound max (claims turn.claim_at turn.lease) before sb) in
      rw h (
        complete-IsDone (run max meanwhile tables) (run-IsSound max meanwhile tables sc) c.runs
          (delete_expired turn.claim_at before).leases c.free
          (run-Untouched max job.job_id job _ meanwhile tables clients
            (record { stored = c.stored; held = c.leased })))
