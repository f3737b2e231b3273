-- ===== src/Jobs/Queue/Replay.antt =====
-- Enqueueing is idempotent in the key, and refuses a key that was given to another request.
use agentic_sec_blog_publish.Prelude.{
  ℕ, String, ◌≡◌, ◌≢◌, ◌⊎◌, inl, inr, Bool, true, false, ◌&&◌, Option, none, some, [], ◌∷◌, ◌++◌,
  ◌==◌, eq_iff, eq_refl, arith, is_same, Result, ok, err, any, any-find, find-append, Option-cases,
  if◌then◌else◌,
}
use agentic_sec_blog_publish.Jobs.Models.{JobType, JobType-discrete, JobRecord}
use agentic_sec_blog_publish.Jobs.Tables.{
  Tables, JobError, idempotency_conflict, integrity, has_id, has_key, get, by_key,
}
use agentic_sec_blog_publish.Jobs.Queue.{
  validate_idempotent_replay, insert_job, new_job, replay, on_conflict, inserted, enqueue_new,
  enqueue,
}

abbrev append_job : JobRecord → Tables → Tables
append_job job db = record db { jobs = db.jobs ++ (job ∷ []) }

-- The row that an accepted insertion appends is the one that the reread finds.
get-append_job :
    (job : JobRecord) (db : Tables)
    → any (has_id job.job_id) db.jobs ≡ false
    → get job.job_id (append_job job db) ≡ some job
unfolding get
get-append_job job db h = ground (
  arith,
  find-append (has_id job.job_id) db.jobs (job ∷ []),
  any-find (has_id job.job_id) db.jobs,
  eq_refl job.job_id,
)

by_key-append_job :
    (job : JobRecord) (db : Tables)
    → by_key job.idempotency_key db ≡ none
    → by_key job.idempotency_key (append_job job db) ≡ some job
unfolding by_key
by_key-append_job job db h = ground (
  arith,
  find-append (has_key job.idempotency_key) db.jobs (job ∷ []),
  eq_refl job.idempotency_key,
)

-- Whether a stored job is the one that a request describes.
abbrev pub is_request : JobType → String → JobRecord → Bool
is_request job_type requested_by job =
    is_same JobType-discrete job.job_type job_type && job.requested_by == requested_by

module _ (job_type : JobType) (requested_by key job_id : String) (now : ℕ) (db : Tables) where
  abbrev pub Outcome : Type 0
  Outcome = Result JobError (JobRecord × Bool) × Tables

  -- What a caller of `enqueue` may rely on, by what the table holds for the key and the id.
  abbrev pub enqueued : Option JobRecord → Bool → Outcome
  enqueued (some existing) clash =
      if is_request job_type requested_by existing
      then (ok (existing, true), db)
      else (err idempotency_conflict, db)
  enqueued none true = (err integrity, db)
  enqueued none false =
      let job = new_job job_type requested_by key job_id now in (ok (job, false), append_job job db)

  enqueue_body_known :
      (existing : JobRecord)
      → by_key key db ≡ some existing
      → enqueue job_type requested_by key job_id now db ≡ enqueued (some existing) false
  unfolding enqueue replay validate_idempotent_replay
  enqueue_body_known existing h = ground arith

  enqueue_body_new :
      by_key key db ≡ none
      → enqueue job_type requested_by key job_id now db
        ≡ enqueued none (any (has_id job_id) db.jobs)
  unfolding enqueue insert_job on_conflict inserted new_job by_key enqueue_new
  enqueue_body_new h = ground (
    arith,
    any-find (has_key key) db.jobs,
    get-append_job (new_job job_type requested_by key job_id now) db,
  )

  -- `enqueue` returns the job already stored under the key when the request is the same, refuses
  -- another request under that key, refuses a duplicate id, and otherwise appends one new job;
  -- both refusals leave the tables as they were.
  pub enqueue-eq-enqueued :
      enqueue job_type requested_by key job_id now db
      ≡ enqueued (by_key key db) (any (has_id job_id) db.jobs)
  enqueue-eq-enqueued = elim (Option-cases (by_key key db)) [
    | inl e ↦ rw e (enqueue_body_new e)
    | inr (existing, e) ↦ rw e (enqueue_body_known existing e)
  ]

-- An accepted request stands in the table under its key.
accepted :
    (job_type : JobType) (requested_by key id : String) (now : ℕ) (db db' : Tables)
    (job : JobRecord) (again : Bool)
    → enqueue job_type requested_by key id now db ≡ (ok (job, again), db')
    → (by_key key db' ≡ some job) × (is_request job_type requested_by job ≡ true)
unfolding new_job
accepted t r key id now db db' job again h =
    let e = enqueue-eq-enqueued t r key id now db in
    ground (arith, e, by_key-append_job (new_job t r key id now) db, eq_refl r)

-- Once a request was accepted, the same request with any id and at any time returns the job that
-- was stored, says that it is a replay, and changes nothing.
pub enqueue-enqueue :
    (job_type : JobType) (requested_by key id id' : String) (now now' : ℕ) (db db' : Tables)
    (job : JobRecord) (again : Bool)
    → enqueue job_type requested_by key id now db ≡ (ok (job, again), db')
    → enqueue job_type requested_by key id' now' db' ≡ (ok (job, true), db')
enqueue-enqueue t r key id id' now now' db db' job again h =
    let (stored, same) = accepted t r key id now db db' job again h in
    rw enqueue-eq-enqueued (rw (stored, same))

-- A key that stands for another request is refused, whoever asks and whatever the id, and nothing
-- changes.
pub enqueue_conflict :
    (job_type : JobType) (requested_by key id : String) (now : ℕ) (db : Tables) (job : JobRecord)
    → by_key key db ≡ some job
    → (job.job_type ≢ job_type) ⊎ (job.requested_by ≢ requested_by)
    → enqueue job_type requested_by key id now db ≡ (err idempotency_conflict, db)
enqueue_conflict t r key id now db job stored differs =
    rw enqueue-eq-enqueued (ground (arith, eq_iff job.requested_by r))
