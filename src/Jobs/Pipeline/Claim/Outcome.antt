-- ===== src/Jobs/Pipeline/Claim/Outcome.antt =====
-- `claim_next` against a description of its own: who is first, and what is taken.
use agentic_sec_blog_publish.Prelude.{
  ℕ, ◌+◌, ◌≤◌, ◌<◌, ◌≡◌, refl, sym, subst, true, not, ◌&&◌, Option, none, some, inl, inr, List, [],
  ◌∷◌, ◌++◌, ◌==◌, eq_iff, leb, leb→le, ltb, Memᴰ, find, select, update_where, text_leb, arith,
  Result, ok, All, All-imp, Distinct, Bool-cases,
}
use agentic_sec_blog_publish.Jobs.Models.{JobStatus, queued, running, JobRecord, is_queued}
use agentic_sec_blog_publish.Jobs.Tables.{Tables, JobError, Lease, pipeline_lease, get}
use agentic_sec_blog_publish.Jobs.Pipeline.Ids.{ids, get_self}
use agentic_sec_blog_publish.Jobs.Pipeline.{
  delete_expired, active_lease, next_queued, claim_leb, claim_next,
}
use agentic_sec_blog_publish.Jobs.Pipeline.Claim.{
  claim_next-eq-claimed, claimed, next_queued-queued, next_queued-All, next_queued_first,
  next_queued-none,
}

-- First come, first served: by the time of queueing, then of creation, then by the id.
pub data ComesFirst (a b : JobRecord) : Type 0 where
  queued_before : a.queued_at < b.queued_at → ComesFirst a b
  created_before : a.queued_at ≡ b.queued_at → a.created_at < b.created_at → ComesFirst a b
  smaller_id :
      a.queued_at ≡ b.queued_at
      → a.created_at ≡ b.created_at
      → text_leb a.job_id b.job_id ≡ true
      → ComesFirst a b

claim_leb-ComesFirst : (a b : JobRecord) → claim_leb a b ≡ true → ComesFirst a b
claim_leb-ComesFirst a b h = elim (Bool-cases (ltb a.queued_at b.queued_at)) [
  | inl q ↦ queued_before (ground arith)
  | inr q ↦ elim (Bool-cases (ltb a.created_at b.created_at)) [
    | inl c ↦ created_before (ground arith) (ground arith)
    | inr c ↦ smaller_id (ground arith) (ground arith) (ground arith)
  ]
]

is_queued→eq : (s : JobStatus) → is_queued s ≡ true → s ≡ queued
is_queued→eq s h = ground arith

eq→is_queued : (s : JobStatus) → s ≡ queued → is_queued s ≡ true
eq→is_queued s h = rw h refl

-- A lease of the pipeline that has not expired.
abbrev pub IsLive : ℕ → Lease → Type 0
IsLive now l = (l.name ≡ pipeline_lease) × (now < l.expires_at)

find-IsLive :
    (now : ℕ) (leases : List Lease) (held : Lease)
    → find (λ l. l.name == pipeline_lease) (select (λ l. not (leb l.expires_at now)) leases)
      ≡ some held
    → Memᴰ held leases × IsLive now held
find-IsLive now [] held h = absurd (ground arith)
find-IsLive now (l ∷ ls) held h = elim (Bool-cases (leb l.expires_at now)) [
  | inl old ↦ let k = find-IsLive now ls held (rw old at h) in (Memᴰ.tail k.0, k.1)
  | inr new ↦ elim (Bool-cases (l.name == pipeline_lease)) [
    | inl ours ↦
        let same : l ≡ held = ground arith in
        (
          Memᴰ.head (sym same),
          subst (IsLive now) same (ground (arith, eq_iff l.name pipeline_lease), ground arith),
        )
    | inr other ↦
        let k = find-IsLive now ls held (let j = rw new at h in rw other at j) in
        (Memᴰ.tail k.0, k.1)
  ]
]

-- Every lease of the pipeline has expired.
abbrev pub IsOver : ℕ → Lease → Type 0
IsOver now l = l.name ≡ pipeline_lease → l.expires_at ≤ now

leases-IsOver :
    (now : ℕ) (leases : List Lease)
    → find (λ l. l.name == pipeline_lease) (select (λ l. not (leb l.expires_at now)) leases) ≡ none
    → All (IsOver now) leases
leases-IsOver now [] h = tt
leases-IsOver now (l ∷ ls) h = elim (Bool-cases (leb l.expires_at now)) [
  | inl old ↦ ((λ _. leb→le l.expires_at now old), leases-IsOver now ls (rw old at h))
  | inr new ↦ elim (Bool-cases (l.name == pipeline_lease)) [
    | inl ours ↦ absurd (ground arith)
    | inr other ↦ (
      (λ e. absurd (ground (arith, eq_iff l.name pipeline_lease))),
      leases-IsOver now ls (let j = rw new at h in rw other at j),
    )
  ]
]

-- The job as it runs, and the lease that it is given.
abbrev pub taken : ℕ → JobRecord → JobRecord
taken now row = record row { status = running; started_at = some now; updated_at = now }

module _ (now lease : ℕ) (db : Tables) where
  abbrev unexpired : List Lease
  unexpired = select (λ l. not (leb l.expires_at now)) db.leases

  pub data Claimed : Result JobError (Option JobRecord) × Tables → Type 0 where
    takes :
        (row : JobRecord)
        → get row.job_id db ≡ some row
        → row.status ≡ queued
        → All (λ other. other.status ≡ queued → ComesFirst row other) db.jobs
        → All (IsOver now) db.leases
        → Claimed (
          ok (some (taken now row)),
          record db {
            jobs =
                update_where
                  (λ job. (job.job_id == row.job_id) && is_queued job.status)
                  (taken now)
                  db.jobs;
            leases =
                unexpired
                ++ (record {
                  name = "mutating-pipeline";
                  holder_id = row.job_id;
                  acquired_at = now;
                  expires_at = now + lease;
                }
                    ∷ []);
          },
        )
    held :
        (l : Lease)
        → Memᴰ l db.leases
        → IsLive now l
        → Claimed (ok none, record db { leases = unexpired })
    idle :
        All (λ job. ¬ (job.status ≡ queued)) db.jobs
        → Claimed (ok none, record db { leases = unexpired })

  claimed-Claimed :
      (active : Option Lease) (next : Option JobRecord)
      → Distinct (ids db.jobs)
      → active_lease (delete_expired now db) ≡ active
      → next_queued (delete_expired now db) ≡ next
      → Claimed (claimed now lease (delete_expired now db) active next)
  unfolding delete_expired active_lease
  claimed-Claimed (some l) next d a n = let k = find-IsLive now db.leases l a in held l k.0 k.1
  claimed-Claimed none none d a n = idle (next_queued-none (delete_expired now db) n)
  claimed-Claimed none (some row) d a n =
      takes row
        (next_queued-All (λ job. get job.job_id db ≡ some job) (delete_expired now db)
          (get_self db d) n)
        (is_queued→eq row.status (next_queued-queued (delete_expired now db) n))
        (All-imp db.jobs
          (λ other k q. claim_leb-ComesFirst row other (k (eq→is_queued other.status q)))
          (next_queued_first (delete_expired now db) n))
        (leases-IsOver now db.leases a)

  -- When no two jobs share an id, `claim_next` never raises and always drops the expired leases. While a
  -- lease of the pipeline lives, or when no job is QUEUED, it returns nothing and changes nothing else.
  -- When it returns a job, that is the stored QUEUED job that comes first of all QUEUED ones, by the time it
  -- was queued, then the time it was created, then its id; it is now RUNNING, started at the time of
  -- the claim, no lease of the pipeline lived, and the pipeline is leased to it.
  pub claim_next-Claimed : Distinct (ids db.jobs) → Claimed (claim_next now lease db)
  claim_next-Claimed d =
      let live = delete_expired now db in
      subst Claimed (sym (claim_next-eq-claimed now lease db d))
        (claimed-Claimed (active_lease live) (next_queued live) d refl refl)
