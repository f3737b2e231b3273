-- ===== src/Jobs/Pipeline/Ids.antt =====
-- What distinct job ids give: a job is the row that its id finds, and the only one.
use agentic_sec_blog_publish.Prelude.{
  ℕ, String, ◌≡◌, refl, ap, Bool, true, false, ◌&&◌, Option, none, some, inl, inr, List, [], ◌∷◌,
  map, ◌==◌, eq_iff, eq_refl, arith, if◌then◌else◌, All, All-imp, All-Mem, All-zip, any, any-find,
  find, find_sat, find-All, count_where, map-All_of, Distinct, Memᴰ, Option-cases,
}
use agentic_sec_blog_publish.Jobs.Models.{JobRecord}
use agentic_sec_blog_publish.Jobs.Tables.{Tables, has_id, get}

abbrev pub ids : List JobRecord → List String
ids = map (λ job. job.job_id)

-- A row with a job's id is that job.
pub owns :
    (jobs : List JobRecord)
    → Distinct (ids jobs)
    → All (λ job. All (λ row. has_id row.job_id job ≡ true → row ≡ job) jobs) jobs
owns [] d = tt
owns (x ∷ xs) d =
    let apart = map-All_of (λ id. (x.job_id == id) ≡ false) (λ job. job.job_id) xs d.0 in
    (
      ((λ _. refl), All-imp xs (λ row e same. ground (arith, eq_iff x.job_id row.job_id)) apart),
      All-imp xs
          (λ job k. (
            (λ same. ground (arith, k, eq_iff x.job_id job.job_id, eq_iff job.job_id x.job_id)),
            k.1,
          ))
          (All-zip (λ job. (x.job_id == job.job_id) ≡ false)
            (λ job. All (λ row. has_id row.job_id job ≡ true → row ≡ job) xs) xs apart
            (owns xs d.1)),
    )

any_own :
    (jobs : List JobRecord) (job : JobRecord) → Memᴰ job jobs → any (has_id job.job_id) jobs ≡ true
any_own [] job m = elim m [ ]
any_own (x ∷ xs) job (Memᴰ.head e) =
    ground (arith, eq_refl job.job_id, ap (λ (j : JobRecord). j.job_id) e)
any_own (x ∷ xs) job (Memᴰ.tail m) = ground (arith, any_own xs job m)

-- Each stored job is what `get` returns for its id.
pub get_self :
    (db : Tables) → Distinct (ids db.jobs) → All (λ job. get job.job_id db ≡ some job) db.jobs
unfolding get
get_self db d =
    All-imp db.jobs
      (λ job k. elim (Option-cases (find (has_id job.job_id) db.jobs)) [
        | inl e ↦ ground (arith, any-find (has_id job.job_id) db.jobs, any_own db.jobs job k.0)
        | inr (x, e) ↦
            let same = find_sat (has_id job.job_id) db.jobs e in
            let own =
              find-All (λ row. has_id row.job_id job ≡ true → row ≡ job) (has_id job.job_id) db.jobs
                k.1 e in
            cc (e, own (ground (arith, eq_iff x.job_id job.job_id, eq_refl job.job_id)))
      ])
      (All-zip (λ job. Memᴰ job db.jobs)
        (λ job. All (λ row. has_id row.job_id job ≡ true → row ≡ job) db.jobs) db.jobs
        (All-Mem db.jobs) (owns db.jobs d))

abbrev counted : (JobRecord → Bool) → Option JobRecord → ℕ
counted p none = 0
counted p (some job) = if p job then 1 else 0

count-apart :
    (id : String) (p : JobRecord → Bool) (jobs : List JobRecord)
    → All (λ y. (id == y) ≡ false) (ids jobs)
    → count_where (λ job. has_id id job && p job) jobs ≡ 0
count-apart id p [] h = refl
count-apart id p (x ∷ xs) h =
    ground (arith, count-apart id p xs h.1, eq_iff x.job_id id, eq_iff id x.job_id, h.0)

-- At most one row has an id, so a statement `WHERE job_id=? AND …` acts on the row that `get` finds.
pub count_by_id :
    (id : String) (p : JobRecord → Bool) (jobs : List JobRecord)
    → Distinct (ids jobs)
    → count_where (λ job. has_id id job && p job) jobs ≡ counted p (find (has_id id) jobs)
count_by_id id p [] d = refl
count_by_id id p (x ∷ xs) d = ground (
  arith,
  count_by_id id p xs d.1,
  eq_iff x.job_id id,
  λ (e : x.job_id ≡ id). count-apart id p xs (rw e at (d.0)),
)
