-- ===== src/Jobs/Worker/Exclusive.antt =====
-- At most one job is RUNNING after a turn's recovery and claim.
use agentic_sec_blog_publish.Prelude.{
  ℕ, ◌+◌, ◌≤◌, String, ◌≡◌, refl, sym, subst, Bool, true, ◌&&◌, Option, none, some, List, [], ◌∷◌,
  map, arith, ◌==◌, All, count_where, update_where, Distinct,
}
use agentic_sec_blog_publish.Jobs.Models.{JobRecord, is_running, is_queued}
use agentic_sec_blog_publish.Jobs.Tables.{Tables, Lease, has_id}
use agentic_sec_blog_publish.Jobs.Pipeline.{
  recover_interrupted, claim_next, delete_expired, active_lease, next_queued, started, waits_as,
  is_holder,
}
use agentic_sec_blog_publish.Jobs.Pipeline.Ids.{ids, count_by_id}
use agentic_sec_blog_publish.Jobs.Pipeline.Recover.{recover_interrupted-eq-recovered, recovered_job}
use agentic_sec_blog_publish.Jobs.Pipeline.Claim.{claim_next-eq-claimed, claimed}
use agentic_sec_blog_publish.Jobs.Runtime.{recovers, step}
use agentic_sec_blog_publish.Jobs.Runtime.Sound.{IsSound, step-IsSound}

abbrev pub running_count : Tables → ℕ
running_count db = count_where (λ job. is_running job.status) db.jobs

-- Only the holder of the live lease is left RUNNING.
recovered-held :
    (active : Option Lease) (max now : ℕ) (jobs : List JobRecord)
    → All
        (λ job. is_running job.status ≡ true → is_holder job.job_id active ≡ true)
        (map (recovered_job active max now) jobs)
recovered-held active max now [] = tt
recovered-held active max now (job ∷ jobs) =
    ((λ r. ground arith), recovered-held active max now jobs)

count-held :
    (id : String) (jobs : List JobRecord)
    → All (λ job. is_running job.status ≡ true → (job.job_id == id) ≡ true) jobs
    → count_where (λ job. is_running job.status) jobs
      ≡ count_where (λ job. has_id id job && is_running job.status) jobs
count-held id [] h = refl
count-held id (job ∷ jobs) h = ground (arith, count-held id jobs h.1, h.0)

count-unheld :
    (jobs : List JobRecord)
    → All (λ job. is_running job.status ≡ true → is_holder job.job_id none ≡ true) jobs
    → count_where (λ job. is_running job.status) jobs ≡ 0
count-unheld [] h = refl
count-unheld (job ∷ jobs) h = ground (arith, count-unheld jobs h.1, h.0)

count-started :
    (id : String) (now : ℕ) (jobs : List JobRecord)
    → count_where (λ job. is_running job.status) (update_where (waits_as id) (started now) jobs)
      ≤ count_where (λ job. is_running job.status) jobs
        + count_where (λ job. has_id id job && is_queued job.status) jobs
count-started id now [] = omega arith
count-started id now (job ∷ jobs) = ground (arith, count-started id now jobs)

count-le-one :
    (id : String) (p : JobRecord → Bool) (jobs : List JobRecord)
    → Distinct (ids jobs)
    → count_where (λ job. has_id id job && p job) jobs ≤ 1
count-le-one id p jobs d = ground (arith, count_by_id id p jobs d)

claimed-le-one :
    (now lease : ℕ) (live : Tables) (active : Option Lease) (next : Option JobRecord)
    → Distinct (ids live.jobs)
    → All (λ job. is_running job.status ≡ true → is_holder job.job_id active ≡ true) live.jobs
    → running_count (claimed now lease live active next).1 ≤ 1
claimed-le-one now lease live (some l) next d h = omega (
  arith,
  count-held l.holder_id live.jobs h,
  count-le-one l.holder_id (λ job. is_running job.status) live.jobs d,
)
claimed-le-one now lease live none none d h = omega (arith, count-unheld live.jobs h)
claimed-le-one now lease live none (some row) d h = omega (
  arith,
  count-unheld live.jobs h,
  count-started row.job_id now live.jobs,
  count-le-one row.job_id (λ job. is_queued job.status) live.jobs d,
)

-- From sound tables, if the lease that is live at the recovery is still the live one at the claim,
-- then after the claim at most one job is RUNNING, however many jobs an earlier crash left
-- RUNNING.
pub running-le-one :
    (max recover_at claim_at lease : ℕ) (db : Tables)
    → IsSound max db.jobs
    → let recovered = (recover_interrupted max recover_at db).1 in
      active_lease (delete_expired claim_at recovered) ≡ active_lease (delete_expired recover_at db)
      → running_count (claim_next claim_at lease recovered).1 ≤ 1
unfolding delete_expired step
running-le-one max t1 t2 lease db s same =
    let recovered = (recover_interrupted max t1 db).1 in
    let active = active_lease (delete_expired t1 db) in
    let sound = step-IsSound max (recovers t1) db s in
    let eq = recover_interrupted-eq-recovered max t1 db s.ids_distinct in
    let held : All (λ job. is_running job.status ≡ true → is_holder job.job_id active ≡ true)
        recovered.jobs =
      subst
        (λ (r : ℕ × Tables).
          All (λ job. is_running job.status ≡ true → is_holder job.job_id active ≡ true) r.1.jobs)
        (sym eq) (recovered-held active max t1 db.jobs) in
    rw (claim_next-eq-claimed t2 lease recovered sound.ids_distinct, same)
      (claimed-le-one t2 lease (delete_expired t2 recovered) active
        (next_queued (delete_expired t2 recovered)) sound.ids_distinct held)
