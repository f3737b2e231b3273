-- ===== src/Jobs/Pipeline/Claim.antt =====
-- `claim_next`: what it does on each branch, and that jobs are taken first come, first served.
pub mod Outcome
use agentic_sec_blog_publish.Prelude.{
  ℕ, ◌+◌, ◌≡◌, refl, sym, ◌∙◌, subst, true, Option, none, some, inl, inr, [], ◌∷◌, ◌++◌, ◌==◌,
  eq_refl, arith, Result, ok, All, any-find, find-update_where, select, update_where, head-All,
  select_sat, select-All, All-select, order_by, All-order_by, IsOrder, order_by-first,
  length-order_by, length, head?, List, Bool-cases, text_leb_total, text_leb_trans, Distinct,
  Option-cases,
}
use agentic_sec_blog_publish.Jobs.Models.{JobRecord, is_queued, queued, running}
use agentic_sec_blog_publish.Jobs.Tables.{Tables, JobError, has_id, get, Lease, pipeline_lease}
use agentic_sec_blog_publish.Jobs.Pipeline.Ids.{ids, get_self}
use agentic_sec_blog_publish.Jobs.Pipeline.{
  delete_expired, active_lease, started, waits_as, claim_leb, next_queued, insert_lease,
  mark_running, reread, claim_next,
}

claim_leb-IsOrder : IsOrder claim_leb
claim_leb-IsOrder = record {
  total = λ a b. ground (arith, text_leb_total a.job_id b.job_id);
  trans = λ a b c h k. ground (arith, text_leb_trans a.job_id b.job_id c.job_id);
}

-- The job that the query picks: any property of all jobs, that it is queued, and that no queued
-- job is before it.
pub next_queued-All {κ} :
    (P : JobRecord → Type κ) (db : Tables) {row : JobRecord}
    → All P db.jobs
    → next_queued db ≡ some row
    → P row
unfolding next_queued
next_queued-All P db h e =
    let queue = select (λ job. is_queued job.status) db.jobs in
    head-All P (order_by claim_leb queue)
      (All-order_by claim_leb P queue (All-select P (λ job. is_queued job.status) db.jobs h)) e

pub next_queued-queued :
    (db : Tables) {row : JobRecord} → next_queued db ≡ some row → is_queued row.status ≡ true
unfolding next_queued
next_queued-queued db e =
    let queue = select (λ job. is_queued job.status) db.jobs in
    head-All (λ job. is_queued job.status ≡ true) (order_by claim_leb queue)
      (All-order_by claim_leb (λ job. is_queued job.status ≡ true) queue
        (select_sat (λ job. is_queued job.status) db.jobs))
      e

pub next_queued_first :
    (db : Tables) {row : JobRecord}
    → next_queued db ≡ some row
    → All (λ job. is_queued job.status ≡ true → claim_leb row job ≡ true) db.jobs
unfolding next_queued delete_expired
next_queued_first db e =
    let queue = select (λ job. is_queued job.status) db.jobs in
    select-All _ (λ job. is_queued job.status) db.jobs (order_by-first claim_leb-IsOrder queue e)

select-none :
    (jobs : List JobRecord)
    → length (select (λ job. is_queued job.status) jobs) ≡ 0
    → All (λ job. ¬ (job.status ≡ queued)) jobs
select-none [] h = tt
select-none (job ∷ jobs) h = elim (Bool-cases (is_queued job.status)) [
  | inl q ↦ absurd (let k = rw q at h in omega (arith, k))
  | inr q ↦ ((λ e. absurd (let k = rw e at q in ground arith)), select-none jobs (rw q at h))
]

pub head-none : (jobs : List JobRecord) → head? jobs ≡ none → length jobs ≡ 0
head-none [] h = refl
head-none (job ∷ jobs) h = absurd (ground arith)

pub next_queued-none :
    (db : Tables) → next_queued db ≡ none → All (λ job. ¬ (job.status ≡ queued)) db.jobs
unfolding next_queued
next_queued-none db h =
    let queue = select (λ job. is_queued job.status) db.jobs in
    select-none db.jobs
      (omega (arith, length-order_by claim_leb queue, head-none (order_by claim_leb queue) h))

-- What `claim_next` does, by the live lease and the first queued job.
abbrev pub claimed :
    (now lease : ℕ)
    → Tables
    → Option Lease
    → Option JobRecord
    → Result JobError (Option JobRecord) × Tables
claimed now lease live (some _) row = (ok none, live)
claimed now lease live none none = (ok none, live)
claimed now lease live none (some row) = (
  ok (some (started now row)),
  record live {
    jobs = update_where (waits_as row.job_id) (started now) live.jobs;
    leases =
        live.leases
        ++ (record {
          name = pipeline_lease;
          holder_id = row.job_id;
          acquired_at = now;
          expires_at = now + lease;
        }
            ∷ []);
  },
)

module _ (now lease : ℕ) (db : Tables) (distinct : Distinct (ids db.jobs)) where
  abbrev live : Tables
  live = delete_expired now db

  claim_next-free :
      (row : JobRecord)
      → active_lease live ≡ none
      → next_queued live ≡ some row
      → claim_next now lease db ≡ claimed now lease live none (some row)
  unfolding claim_next insert_lease mark_running get reread delete_expired active_lease
  claim_next-free row free next = ground (
    arith,
    any-find (λ l. l.name == pipeline_lease) (delete_expired now db).leases,
    find-update_where (has_id row.job_id) (waits_as row.job_id) (started now) db.jobs (λ x. refl),
    next_queued-queued (delete_expired now db) next,
    next_queued-All (λ job. get job.job_id db ≡ some job) (delete_expired now db)
        (get_self db distinct) next,
    eq_refl row.job_id,
  )

  claim_next-held :
      (held : Lease)
      → active_lease live ≡ some held
      → claim_next now lease db ≡ claimed now lease live (some held) (next_queued live)
  unfolding claim_next
  claim_next-held held e = ground arith

  claim_next-idle :
      active_lease live ≡ none
      → next_queued live ≡ none
      → claim_next now lease db ≡ claimed now lease live none none
  unfolding claim_next
  claim_next-idle free idle = ground arith

  -- When no two jobs share an id, `claim_next` drops the expired leases and then takes nothing
  -- while a lease is live or no job is queued; otherwise it marks the first queued job as running
  -- and leases the pipeline to it.
  pub claim_next-eq-claimed :
      claim_next now lease db
      ≡ claimed now lease
          (delete_expired now db)
          (active_lease (delete_expired now db))
          (next_queued (delete_expired now db))
  claim_next-eq-claimed = elim (Option-cases (active_lease (delete_expired now db))) [
    | inr (held, e) ↦ rw e (claim_next-held held e)
    | inl free ↦ elim (Option-cases (next_queued (delete_expired now db))) [
      | inl idle ↦ rw (free, idle) (claim_next-idle free idle)
      | inr (row, e) ↦ rw (free, e) (claim_next-free row free e)
    ]
  ]

claimed-row :
    (now lease : ℕ) (live db' : Tables) (active : Option Lease) (next : Option JobRecord)
    (job : JobRecord)
    → claimed now lease live active next ≡ (ok (some job), db')
    → (row : JobRecord) × (next ≡ some row) × (started now row ≡ job)
claimed-row now lease live db' (some _) next job h = absurd (ground arith)
claimed-row now lease live db' none none job h = absurd (ground arith)
claimed-row now lease live db' none (some row) job h = (row, refl, ground arith)

-- When no two jobs share an id, the job that `claim_next` returns comes before every job that was
-- queued, by the time it was queued, then the time it was created, then its id.
pub claim_next-first :
    (now lease : ℕ) (db db' : Tables) (job : JobRecord)
    → Distinct (ids db.jobs)
    → claim_next now lease db ≡ (ok (some job), db')
    → All (λ other. is_queued other.status ≡ true → claim_leb job other ≡ true) db.jobs
unfolding delete_expired
claim_next-first now lease db db' job d h =
    let live = delete_expired now db in
    let e = sym (claim_next-eq-claimed now lease db d) ∙ h in
    let (row, next, same) =
      claimed-row now lease live db' (active_lease live) (next_queued live) job e in
    subst (λ j. All (λ other. is_queued other.status ≡ true → claim_leb j other ≡ true) db.jobs)
      same (next_queued_first live next)

abbrev pub lease_for : (now lease : ℕ) → JobRecord → Lease
lease_for now lease job = record {
  name = pipeline_lease;
  holder_id = job.job_id;
  acquired_at = now;
  expires_at = now + lease;
}

-- What holds when a job was claimed.
pub record Claims (now lease : ℕ) (db : Tables) (job : JobRecord) (db' : Tables) : Type 0 where
  pub free : active_lease (delete_expired now db) ≡ none
  pub stored : get job.job_id db' ≡ some job
  pub runs : job.status ≡ running
  pub leased : db'.leases ≡ (delete_expired now db).leases ++ (lease_for now lease job ∷ [])

claimed-Claims :
    (now lease : ℕ) (db db' : Tables) (active : Option Lease) (next : Option JobRecord)
    (job : JobRecord)
    → Distinct (ids db.jobs)
    → active_lease (delete_expired now db) ≡ active
    → next_queued (delete_expired now db) ≡ next
    → claimed now lease (delete_expired now db) active next ≡ (ok (some job), db')
    → Claims now lease db job db'
unfolding delete_expired get
claimed-Claims now lease db db' (some _) next job d a n h = absurd (ground arith)
claimed-Claims now lease db db' none none job d a n h = absurd (ground arith)
claimed-Claims now lease db db' none (some row) job d a n h =
    let same : started now row ≡ job = ground arith in
    let after : (claimed now lease (delete_expired now db) none (some row)).1 ≡ db' =
      ground arith in
    record {
      free = a;
      stored =
          subst (λ t. get job.job_id t ≡ some job) after
            (subst
              (λ j.
                get j.job_id (claimed now lease (delete_expired now db) none (some row)).1 ≡ some j)
              same
              (ground (
                arith,
                find-update_where (has_id row.job_id) (waits_as row.job_id) (started now) db.jobs
                    (λ x. refl),
                next_queued-queued (delete_expired now db) n,
                next_queued-All (λ job. get job.job_id db ≡ some job) (delete_expired now db)
                    (get_self db d) n,
                eq_refl row.job_id,
              )));
      runs = subst (λ j. j.status ≡ running) same refl;
      leased =
          subst (λ t. t.leases ≡ (delete_expired now db).leases ++ (lease_for now lease job ∷ []))
            after
            (subst
              (λ j.
                (claimed now lease (delete_expired now db) none (some row)).1.leases
                ≡ (delete_expired now db).leases ++ (lease_for now lease j ∷ []))
              same refl);
    }

pub claim_next-Claims :
    (now lease : ℕ) (db db' : Tables) (job : JobRecord)
    → Distinct (ids db.jobs)
    → claim_next now lease db ≡ (ok (some job), db')
    → Claims now lease db job db'
claim_next-Claims now lease db db' job d h =
    let live = delete_expired now db in
    claimed-Claims now lease db db' (active_lease live) (next_queued live) job d refl refl
      (sym (claim_next-eq-claimed now lease db d) ∙ h)
