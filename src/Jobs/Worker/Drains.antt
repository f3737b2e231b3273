-- ===== src/Jobs/Worker/Drains.antt =====
-- Turns of a worker empty the queue.
use agentic_sec_blog_publish.Prelude.{
  ℕ, suc, ◌+◌, ◌-◌, ◌≤◌, String, ◌≡◌, refl, sym, subst, ◌∙◌, Bool, true, false, not, ◌&&◌, Option,
  none, some, inl, inr, List, [], ◌∷◌, map, arith, ◌==◌, Result, ok, All, count_where, update_where,
  select, find, length, order_by, length-order_by, leb, Distinct, Option-cases,
}
use agentic_sec_blog_publish.Jobs.Models.{
  JobStatus, JobRecord, FailureCategory, is_running, is_queued, is_terminal,
}
use agentic_sec_blog_publish.Jobs.Tables.{Tables, JobError, Lease, pipeline_lease, has_id, get}
use agentic_sec_blog_publish.Jobs.Queue.{heartbeat}
use agentic_sec_blog_publish.Jobs.Pipeline.{
  claim_next, delete_expired, active_lease, next_queued, started, waits_as, runs_as, ended,
  claim_leb,
}
use agentic_sec_blog_publish.Jobs.Pipeline.Ids.{ids, count_by_id}
use agentic_sec_blog_publish.Jobs.Pipeline.Recover.{recover_interrupted-eq-recovered, recovered_job}
use agentic_sec_blog_publish.Jobs.Pipeline.Claim.{
  head-none, claim_next-eq-claimed, claimed, claim_next-Claims,
}
use agentic_sec_blog_publish.Jobs.Pipeline.Finish.{finish-eq-finished}
use agentic_sec_blog_publish.Jobs.Executor.{Raised}
use agentic_sec_blog_publish.Jobs.Runtime.{recovers, step, run}
use agentic_sec_blog_publish.Jobs.Runtime.Sound.{
  IsSound, step-IsSound, claimed-IsSound, finished-IsSound,
}
use agentic_sec_blog_publish.Jobs.Worker.{
  Turn, verdict, worked, complete, before_claim, run_once, Round, run_round, run_forever,
}
use agentic_sec_blog_publish.Jobs.Worker.Completes.{run_once-completes, verdict_terminal}

-- The jobs that are QUEUED or RUNNING.
abbrev pub unfinished : List JobRecord → ℕ
unfinished jobs = count_where (λ job. not (is_terminal job.status)) jobs

-- Without a live lease, a recovery leaves no job RUNNING, and no more jobs unfinished.
unfinished-recovered :
    (max now : ℕ) (jobs : List JobRecord)
    → unfinished (map (recovered_job none max now) jobs) ≤ unfinished jobs
unfinished-recovered max now [] = omega arith
unfinished-recovered max now (job ∷ jobs) = ground (arith, unfinished-recovered max now jobs)

unfinished-queued :
    (max now : ℕ) (jobs : List JobRecord)
    → unfinished (map (recovered_job none max now) jobs)
      ≡ length (select (λ job. is_queued job.status) (map (recovered_job none max now) jobs))
unfinished-queued max now [] = refl
unfinished-queued max now (job ∷ jobs) = ground (arith, unfinished-queued max now jobs)

unfinished-started :
    (id : String) (now : ℕ) (jobs : List JobRecord)
    → unfinished (update_where (waits_as id) (started now) jobs) ≡ unfinished jobs
unfinished-started id now [] = refl
unfinished-started id now (job ∷ jobs) = ground (arith, unfinished-started id now jobs)

unfinished-ended :
    (id : String) (status : JobStatus) (c : Option FailureCategory) (m : Option String) (now : ℕ)
    (jobs : List JobRecord)
    → is_terminal status ≡ true
    → unfinished (update_where (runs_as id) (ended status c m now) jobs)
        + count_where (λ job. has_id id job && is_running job.status) jobs
      ≡ unfinished jobs
unfinished-ended id status c m now [] h = refl
unfinished-ended id status c m now (job ∷ jobs) h =
    ground (arith, unfinished-ended id status c m now jobs h)

keeps_no_lease :
    (p q : Lease → Bool) (leases : List Lease)
    → find p leases ≡ none
    → find p (select q leases) ≡ none
keeps_no_lease p q [] h = refl
keeps_no_lease p q (l ∷ leases) h = ground (arith, keeps_no_lease p q leases)

idle_queue :
    (live : Tables)
    → next_queued live ≡ none
    → length (select (λ job. is_queued job.status) live.jobs) ≡ 0
unfolding next_queued
idle_queue live h =
    let waiting = select (λ job. is_queued job.status) live.jobs in
    omega (arith, length-order_by claim_leb waiting, head-none (order_by claim_leb waiting) h)

-- What a turn does to a store whose lease is free.
record Drained (max n : ℕ) (r : Result JobError Bool × Tables) : Type 0 where
  returned : (worked : Bool) × (r.0 ≡ ok worked)
  free : active_lease r.1 ≡ none
  sound : IsSound max r.1.jobs
  fewer : unfinished r.1.jobs ≤ n - 1

module _ (turn : Turn) (execute : JobRecord → Result Raised (Unit {0})) (db : Tables) where
  abbrev max : ℕ
  max = turn.max_restart_retries

  -- The store when the turn looks for a job.
  abbrev expired : Tables
  expired = delete_expired turn.claim_at (before_claim turn db)

  complete_tables :
      (r : Result Raised (Unit {0})) (job : JobRecord) (tables : Tables)
      → Distinct (ids tables.jobs)
      → get job.job_id tables ≡ some job
      → is_running job.status ≡ true
      → IsSound max tables.jobs
      → IsSound max (complete turn r job tables).1.jobs
        × (suc (unfinished (complete turn r job tables).1.jobs) ≡ unfinished tables.jobs)
  unfolding complete worked get
  complete_tables r job tables d stored busy s =
      let v = verdict r in
      let t = verdict_terminal r in
      let f = finish-eq-finished job.job_id v.status v.category v.message turn.finish_at tables d in
      let sound =
        finished-IsSound max job.job_id v.status v.category v.message turn.finish_at tables
          (some job) t s in
      let one : count_where (λ j. has_id job.job_id j && is_running j.status) tables.jobs ≡ 1 =
        ground
          (arith, count_by_id job.job_id (λ j. is_running j.status) tables.jobs d, stored, busy) in
      let less =
        unfinished-ended job.job_id v.status v.category v.message turn.finish_at tables.jobs t in
      (
        rw (f, t, stored, busy) (rw busy at sound),
        rw (f, t, stored, busy) (omega (arith, less, one)),
      )

  -- A turn that claims a job.
  busy-Drained :
      (n : ℕ) (job : JobRecord) (tables : Tables)
      → IsSound max db.jobs
      → IsSound max tables.jobs
      → unfinished tables.jobs ≤ n
      → claim_next turn.claim_at turn.lease (before_claim turn db) ≡ (ok (some job), tables)
      → Distinct (ids (before_claim turn db).jobs)
      → Drained max n (run_once turn true execute [] db)
  unfolding run_once run
  busy-Drained n job tables s st few h d =
      let c = claim_next-Claims turn.claim_at turn.lease (before_claim turn db) tables job d h in
      let done = run_once-completes turn execute [] tt db job tables s h in
      let busy : is_running job.status ≡ true = rw c.runs refl in
      let k = complete_tables (execute job) job tables st.ids_distinct c.stored busy st in
      record {
        returned = (true, done.0);
        free = done.3;
        sound = rw h k.0;
        fewer = rw h (omega (arith, k.1, few));
      }

  idle-Drained :
      (n : ℕ)
      → IsSound max expired.jobs
      → active_lease expired ≡ none
      → unfinished expired.jobs ≡ 0
      → claim_next turn.claim_at turn.lease (before_claim turn db) ≡ (ok none, expired)
      → Drained max n (run_once turn true execute [] db)
  unfolding run_once
  idle-Drained n s free none_left h = record {
    returned = (false, rw h refl);
    free = rw h free;
    sound = rw h s;
    fewer = rw h (omega (arith, none_left));
  }

  -- A turn over a sound store whose lease has expired does not raise, frees the lease, and leaves
  -- fewer jobs unfinished, or none.
  run_once-Drained :
      IsSound max db.jobs
      → active_lease (delete_expired turn.recover_at db) ≡ none
      → Drained max (unfinished db.jobs) (run_once turn true execute [] db)
  unfolding before_claim heartbeat delete_expired active_lease step
  run_once-Drained s free =
      let beaten = heartbeat turn.worker_id turn.started_at turn.beat_at db in
      let sb : IsSound max beaten.jobs = s in
      let e = recover_interrupted-eq-recovered max turn.recover_at beaten sb.ids_distinct in
      let recovered = map (recovered_job none max turn.recover_at) db.jobs in
      let jobs : (before_claim turn db).jobs ≡ recovered = rw (before_claim, e, free) refl in
      let sbefore : IsSound max (before_claim turn db).jobs =
        step-IsSound max (recovers turn.recover_at) beaten sb in
      let still : active_lease expired ≡ none =
        rw (before_claim, e)
          (keeps_no_lease (λ l. l.name == pipeline_lease)
            (λ l. not (leb l.expires_at turn.claim_at)) _ free) in
      let few : unfinished expired.jobs ≤ unfinished db.jobs =
        rw jobs (unfinished-recovered max turn.recover_at db.jobs) in
      let claim =
        claim_next-eq-claimed turn.claim_at turn.lease (before_claim turn db)
          sbefore.ids_distinct in
      elim (Option-cases (next_queued expired)) [
        | inl idle ↦
            idle-Drained (unfinished db.jobs) sbefore still
              (rw jobs (
                omega (
                  arith,
                  unfinished-queued max turn.recover_at db.jobs,
                  let q = idle_queue expired idle in rw jobs at q,
                )))
              (claim ∙ rw (still, idle) refl)
        | inr (row, found) ↦
            busy-Drained (unfinished db.jobs) (started turn.claim_at row)
              (claimed turn.claim_at turn.lease expired none (some row)).1 s
              (claimed-IsSound max turn.claim_at turn.lease expired none (some row) sbefore)
              (rw (unfinished-started row.job_id turn.claim_at expired.jobs) few)
              (claim ∙ rw (still, found) refl) sbefore.ids_distinct
      ]

-- The pipeline lease is free, or has expired when the first turn recovers.
abbrev pub IsFree : List Round → Tables → Type 0
IsFree [] db = Unit
IsFree (r ∷ rounds) db = active_lease (delete_expired (r.turn).recover_at db) ≡ none

none-IsFree : (rounds : List Round) (db : Tables) → active_lease db ≡ none → IsFree rounds db
unfolding active_lease delete_expired
none-IsFree [] db h = tt
none-IsFree (r ∷ rounds) db h =
    keeps_no_lease (λ l. l.name == pipeline_lease) (λ l. not (leb l.expires_at (r.turn).recover_at))
      db.leases h

-- A turn with this retry limit that gets the file lock, while nobody else calls the store.
pub record IsAlone (most : ℕ) (r : Round) : Type 0 where
  pub locked : r.acquired ≡ true
  pub quiet : r.meanwhile ≡ []
  pub same_limit : (r.turn).max_restart_retries ≡ most

run_round-Drained :
    (most : ℕ) (r : Round) (db : Tables)
    → IsAlone most r
    → IsSound most db.jobs
    → active_lease (delete_expired (r.turn).recover_at db) ≡ none
    → Drained most (unfinished db.jobs) (run_round r db)
run_round-Drained most r db alone s free =
    let st : IsSound (r.turn).max_restart_retries db.jobs =
      subst (λ m. IsSound m db.jobs) (sym alone.same_limit) s in
    let d : Drained most (unfinished db.jobs) (run_once r.turn true r.executor [] db) =
      subst (λ m. Drained m (unfinished db.jobs) (run_once r.turn true r.executor [] db))
        alone.same_limit (run_once-Drained r.turn r.executor db st free) in
    rw (alone.locked, alone.quiet) d

-- From sound tables, when the pipeline lease is free or has expired when the first turn recovers, when
-- every turn gets the file lock and has the retry limit that the tables are sound for, and when nobody
-- else calls the store during or between the turns, as many turns of a worker as jobs are QUEUED or
-- RUNNING bring every job to its end, whatever the executions raise, and no turn raises.
pub run_forever-drains :
    (most : ℕ) (rounds : List Round) (db : Tables)
    → IsSound most db.jobs
    → All (IsAlone most) rounds
    → IsFree rounds db
    → unfinished db.jobs ≤ length rounds
    → ((run_forever rounds db).0 ≡ ok tt) × (unfinished (run_forever rounds db).1.jobs ≡ 0)
unfolding run_forever
run_forever-drains most [] db s alone free few = (refl, omega (arith, few))
run_forever-drains most (r ∷ rounds) db s alone free few =
    let d = run_round-Drained most r db alone.0 s free in
    let after = (run_round r db).1 in
    let rest =
      run_forever-drains most rounds after d.sound alone.1 (none-IsFree rounds after d.free)
        (omega (arith, d.fewer, few)) in
    rw d.returned.1 rest
