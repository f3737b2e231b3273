-- ===== src/Jobs/Pipeline/Recover.antt =====
-- The loop of `recover_interrupted`, statement by statement over the selected rows, does to each
-- job what `recovered_job` says.
use agentic_sec_blog_publish.Prelude.{
  ℕ, ◌+◌, ◌≡◌, refl, Bool, true, false, not, ◌&&◌, Option, some, none, inl, inr, List, [], ◌∷◌, map,
  eq_iff, eq_refl, arith, ltb, if◌then◌else◌, All, All-imp, All-Mem, All-select, All-zip, any,
  any-select, select, map-All, map-map, map_id, count_where, count-select, Distinct, Bool-cases,
  Memᴰ,
}
use agentic_sec_blog_publish.Jobs.Models.{JobRecord, is_running, queued, failed, interrupted}
use agentic_sec_blog_publish.Jobs.Tables.{Tables, has_id}
use agentic_sec_blog_publish.Jobs.Pipeline.Ids.{ids, owns}
use agentic_sec_blog_publish.Jobs.Pipeline.{
  Lease, delete_expired, active_lease, requeued, given_up, runs_as, is_holder, recover_row,
  recover_rows, recover_interrupted,
}

module _ (active : Option Lease) (max_retries now : ℕ) where
  -- A RUNNING job that the live lease does not hold goes back to the queue while it has retries
  -- left, and fails otherwise.
  abbrev pub is_interrupted : JobRecord → Bool
  is_interrupted job = is_running job.status && not (is_holder job.job_id active)

  abbrev pub retry : JobRecord → JobRecord
  retry job =
      if ltb job.retry_count max_retries
      then record job {
        status = queued;
        queued_at = now;
        started_at = none;
        updated_at = now;
        retry_count = job.retry_count + 1;
        failure_category = none;
        sanitized_failure_message = none;
      }
      else record job {
        status = failed;
        finished_at = some now;
        updated_at = now;
        failure_category = some interrupted;
        sanitized_failure_message = some "The worker stopped before the job completed.";
      }

  abbrev pub recovered_job : JobRecord → JobRecord
  recovered_job job = if is_interrupted job then retry job else job

  -- One selected row's statement, on one job.
  abbrev statement : JobRecord → JobRecord → JobRecord
  statement row job =
      if is_holder row.job_id active
      then job
      else if ltb row.retry_count max_retries
      then (if runs_as row.job_id job then requeued now job else job)
      else (if runs_as row.job_id job then given_up now job else job)

  abbrev statements : List JobRecord → JobRecord → JobRecord
  statements [] job = job
  statements (row ∷ rows) job = statements rows (statement row job)

  recover_row-map :
      (row : JobRecord) (jobs : List JobRecord) (n : ℕ)
      → recover_row active max_retries now row (jobs, n)
        ≡ (map (statement row) jobs, n + (if is_holder row.job_id active then 0 else 1))
  unfolding recover_row
  recover_row-map row [] n = ground arith
  recover_row-map row (job ∷ jobs) n = ground (arith, recover_row-map row jobs n)

  recover_rows-map :
      (rows jobs : List JobRecord) (n : ℕ)
      → recover_rows active max_retries now rows (jobs, n) ≡ (
        map (statements rows) jobs,
        n + count_where (λ row. not (is_holder row.job_id active)) rows,
      )
  unfolding recover_rows
  recover_rows-map [] jobs n = ground (arith, map_id jobs)
  recover_rows-map (row ∷ rows) jobs n =
      let m = n + (if is_holder row.job_id active then 0 else 1) in
      ground (
        arith,
        recover_row-map row jobs n,
        recover_rows-map rows (map (statement row) jobs) m,
        map-map (statements rows) (statement row) jobs,
      )

  statements-stopped :
      (rows : List JobRecord) (job : JobRecord)
      → is_running job.status ≡ false
      → statements rows job ≡ job
  statements-stopped [] job h = refl
  statements-stopped (row ∷ rows) job h = ground (arith, statements-stopped rows job h)

  statements-held :
      (rows : List JobRecord) (job : JobRecord)
      → is_holder job.job_id active ≡ true
      → statements rows job ≡ job
  statements-held [] job h = refl
  statements-held (row ∷ rows) job h =
      ground (arith, statements-held rows job h, eq_iff job.job_id row.job_id)

  -- Only the job's own row acts on it.
  statements-eq :
      (rows : List JobRecord) (job : JobRecord)
      → All (λ row. has_id row.job_id job ≡ true → row ≡ job) rows
      → any (λ row. has_id row.job_id job) rows ≡ true
      → is_interrupted job ≡ true
      → statements rows job ≡ retry job
  statements-eq [] job own h i = cc
  statements-eq (row ∷ rows) job own h i = elim (Bool-cases (has_id row.job_id job)) [
    | inl same ↦
        rw (own.0 same) (ground (arith, statements-stopped rows (retry job), eq_refl job.job_id))
    | inr other ↦ ground (arith, statements-eq rows job own.1)
  ]

  statements-recovered :
      (jobs : List JobRecord) (job : JobRecord)
      → All (λ row. has_id row.job_id job ≡ true → row ≡ job) jobs
      → Memᴰ job jobs
      → statements (select (λ j. is_running j.status) jobs) job ≡ recovered_job job
  statements-recovered jobs job own m =
      let rows = select (λ j. is_running j.status) jobs in
      elim (Bool-cases (is_running job.status)) [
        | inr idle ↦ rw idle (statements-stopped rows job idle)
        | inl busy ↦ elim (Bool-cases (is_holder job.job_id active)) [
          | inl held ↦ rw (busy, held) (statements-held rows job held)
          | inr free ↦
              let i : is_interrupted job ≡ true = ground arith in
              rw i (
                statements-eq rows job
                  (All-select (λ row. has_id row.job_id job ≡ true → row ≡ job)
                    (λ j. is_running j.status) jobs own)
                  (any-select (λ row. has_id row.job_id job) (λ j. is_running j.status) job jobs m
                    busy (eq_refl job.job_id))
                  i)
        ]
      ]

  pub recover_rows-recovered :
      (jobs : List JobRecord)
      → Distinct (ids jobs)
      → recover_rows active max_retries now (select (λ j. is_running j.status) jobs) (jobs, 0)
        ≡ (map recovered_job jobs, count_where is_interrupted jobs)
  recover_rows-recovered jobs d =
      let rows = select (λ j. is_running j.status) jobs in
      let each =
        All-imp jobs (λ job k. statements-recovered jobs job k.0 k.1)
          (All-zip (λ job. All (λ row. has_id row.job_id job ≡ true → row ≡ job) jobs)
            (λ job. Memᴰ job jobs) jobs (owns jobs d) (All-Mem jobs)) in
      ground (
        arith,
        recover_rows-map rows jobs 0,
        map-All (statements rows) recovered_job jobs each,
        count-select (λ row. not (is_holder row.job_id active)) (λ j. is_running j.status) jobs,
      )

-- When no two jobs share an id, `recover_interrupted` first drops the expired leases. Then each
-- RUNNING job that the remaining lease does not hold is requeued with one more retry, or failed as
-- interrupted when its retries are used up; every other job stays as it is, and the number
-- returned counts those jobs.
pub recover_interrupted-eq-recovered :
    (max_retries now : ℕ) (db : Tables)
    → Distinct (ids db.jobs)
    → let live = delete_expired now db in
      let active = active_lease live in
      recover_interrupted max_retries now db ≡ (
        count_where (is_interrupted active max_retries now) db.jobs,
        record live { jobs = map (recovered_job active max_retries now) db.jobs },
      )
unfolding recover_interrupted delete_expired
recover_interrupted-eq-recovered max_retries now db d =
    ground (
      arith,
      recover_rows-recovered (active_lease (delete_expired now db)) max_retries now db.jobs d,
    )
