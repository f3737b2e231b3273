-- ===== src/Publishing/Outcome/PullRequests.antt =====
-- Actions that return only what has a property; a pull request that was found.
use agentic_sec_blog_publish.Prelude.{
  ℕ, ◌≡◌, ◌≤◌, refl, List, length, ap, eq_iff, String, true, not, ◌==◌, ◌&&◌, eqb, leb, text_length,
  Option, none, some, [], ◌∷◌, inl, inr, Bool-cases, Result, ok, err, arith, if◌then◌else◌,
}
use Prim.Native.String.{◌++◌ as append}
use agentic_sec_blog_publish.Jobs.Models.{github_auth_unavailable}
use agentic_sec_blog_publish.Publishing.{
  CommandResult, PublishError, PublishResult, PullRequest, Rows, not_json, not_a_list, rows,
}
use agentic_sec_blog_publish.Publishing.Shell.{
  Answer, not_started, returned, output, pr_list, Log, World, Action, and_then, ◌>>=◌, return,
  raise, raise_when, run,
}
use agentic_sec_blog_publish.Publishing.Remote.{
  is_result_branch, is_hash, branch_hash, zeros, build_result, hosted, is_text, result_of,
  is_our_draft, read_rows, existing_pr,
}

-- What the action returns satisfies P, where it returns.
abbrev pub Gives : {A : Type 0} → (A → Type 0) → Result PublishError A × Log → Type 0
Gives P (ok a, log) = P a
Gives P (err e, log) = Unit

pub record Returns {A : Type 0} (P : A → Type 0) (m : Action A) : Type 0 where
  pub gives : (log : Log) → Gives P (m log)

pub bind-Returns :
    {A B : Type 0} (Q : A → Type 0) {P : B → Type 0} (m : Action A) (f : A → Action B)
    → Returns Q m
    → ((a : A) → Q a → Returns P (f a))
    → Returns P (m >>= f)
bind-Returns {A} {B} Q {P} m f hm hf = record { gives = λ log. go (m log) (hm.gives log) }
  where
    go : (r : Result PublishError A × Log) → Gives Q r → Gives P (and_then r f)
    go (ok a, after) k = (hf a k).gives after
    go (err e, after) k = tt

pub any-Returns : {A : Type 0} (m : Action A) → Returns (λ _. Unit {0}) m
any-Returns {A} m = record { gives = λ log. go (m log) }
  where
    go : (r : Result PublishError A × Log) → Gives (λ _. Unit {0}) r
    go (ok a, log) = tt
    go (err e, log) = tt

-- After a step of which nothing is needed.
pub then-Returns :
    {A B : Type 0} {P : B → Type 0} (m : Action A) (f : A → Action B)
    → ((a : A) → Returns P (f a))
    → Returns P (m >>= f)
then-Returns m f h = bind-Returns (λ _. Unit) m f (any-Returns m) (λ a _. h a)

pub raise-Returns : {A : Type 0} {P : A → Type 0} (e : PublishError) → Returns P (raise {A = A} e)
raise-Returns e = record { gives = λ log. tt }

pub return-Returns : {A : Type 0} {P : A → Type 0} (a : A) → P a → Returns P (return a)
return-Returns a h = record { gives = λ log. h }

module _ (world : World) where
  -- What gh printed when it was asked for the pull requests of the branch.
  pub record Printed (branch stdout : String) : Type 0 where
    pub asked : ℕ
    pub result : CommandResult
    pub answered : world.run asked (pr_list branch) ≡ returned result
    pub succeeded : result.returncode ≡ 0
    pub printed : result.stdout ≡ stdout

  run-Printed :
      (branch message : String)
      → Returns (Printed branch) (run world (pr_list branch) github_auth_unavailable message)
  unfolding run
  run-Printed branch message = record {
    gives = λ log. go (length log) (world.run (length log) (pr_list branch)) refl log;
  }
    where
      go :
          (n : ℕ) (answer : Answer)
          → world.run n (pr_list branch) ≡ answer
          → (log : Log)
          → Gives (Printed branch) (
            output github_auth_unavailable message answer,
            record { command = pr_list branch; answer = answer } ∷ log,
          )
      go n not_started e log = tt
      go n (returned r) e log = elim (Bool-cases (eqb r.returncode 0)) [
        | inr k ↦ rw k tt
        | inl k ↦ rw k (record {
          asked = n;
          result = r;
          answered = e;
          succeeded = ground arith;
          printed = refl;
        })
      ]

  -- The first pull request that gh listed for the branch: an open or closed draft against main.
  pub record IsListed (branch : String) (pr : PullRequest) : Type 0 where
    pub stdout : String
    pub printed : Printed branch stdout
    pub more : List (Option PullRequest)
    pub listed : world.loads (if stdout == "" then "[]" else stdout) ≡ rows (some pr ∷ more)
    pub from_branch : pr.head_ref_name ≡ some branch
    pub against_main : pr.base_ref_name ≡ some "main"
    pub drafted : pr.is_draft ≡ true

  -- A draft pull request of the branch against main in the downstream repository, as gh listed it.
  pub record IsDraft (branch : String) (result : PublishResult) : Type 0 where
    pub pr : PullRequest
    pub is_listed : IsListed branch pr
    pub its_url : pr.url ≡ some result.pull_request_url
    pub its_number : pr.number ≡ some result.pull_request_number
    pub repository : result.repository ≡ world.repository
    pub same_branch : result.branch ≡ branch
    pub base : result.base_branch ≡ "main"
    pub is_draft : result.draft ≡ true
    pub on_github : hosted world (world.url_host result.pull_request_url) ≡ true
    pub numbered : 1 ≤ result.pull_request_number
    pub branch_shape : is_result_branch branch ≡ true

  abbrev pub Found : String → Option PublishResult → Type 0
  Found branch none = Unit
  Found branch (some result) = IsDraft branch result

  module _ (branch : String) (pr : PullRequest) (is_listed : IsListed branch pr) where
    build_result-Found :
        (suffix url : String) (number : ℕ)
        → pr.url ≡ some url
        → pr.number ≡ some number
        → hosted world (world.url_host url) ≡ true
        → Returns (Found branch) (build_result world branch suffix url number)
    build_result-Found suffix url number u n h =
        elim (Bool-cases
          (is_result_branch branch && (is_hash (append zeros suffix) && leb 1 number))) [
            | inr e ↦ rw e (raise-Returns _)
            | inl e ↦ rw e (
                return-Returns _ (record {
                  pr = pr;
                  is_listed = is_listed;
                  its_url = u;
                  its_number = n;
                  repository = refl;
                  same_branch = refl;
                  base = refl;
                  is_draft = refl;
                  on_github = h;
                  numbered = ground arith;
                  branch_shape = ground arith;
                }))
          ]

    result_of-Found :
        (url : Option String) (number : Option ℕ)
        → pr.url ≡ url
        → pr.number ≡ number
        → Returns (Found branch) (result_of world branch url number)
    result_of-Found none number u n = raise-Returns _
    result_of-Found (some url) none u n = raise-Returns _
    result_of-Found (some url) (some number) u n =
        elim (Bool-cases (hosted world (world.url_host url))) [
          | inl e ↦ rw e (build_result-Found (branch_hash branch) url number u n e)
          | inr e ↦ rw e (raise-Returns _)
        ]

  is_text→eq :
      (text : String) (found : Option String) → is_text text found ≡ true → found ≡ some text
  is_text→eq text none h = absurd (ground arith)
  is_text→eq text (some found) h = ap some (ground (arith, eq_iff found text))

  read_rows-Found :
      (branch stdout : String) (found : Rows)
      → Printed branch stdout
      → world.loads (if stdout == "" then "[]" else stdout) ≡ found
      → Returns (Found branch) (read_rows world branch found)
  unfolding raise_when
  read_rows-Found branch stdout not_json p l = raise-Returns _
  read_rows-Found branch stdout not_a_list p l = raise-Returns _
  read_rows-Found branch stdout (rows []) p l = return-Returns none tt
  read_rows-Found branch stdout (rows (none ∷ more)) p l = raise-Returns _
  read_rows-Found branch stdout (rows (some pr ∷ more)) p l =
      elim (Bool-cases (is_our_draft world branch pr)) [
        | inr e ↦ rw e (raise-Returns _)
        | inl e ↦
            let is_listed : IsListed branch pr = record {
              stdout = stdout;
              printed = p;
              more = more;
              listed = l;
              from_branch = is_text→eq branch pr.head_ref_name (ground arith);
              against_main = is_text→eq "main" pr.base_ref_name (ground arith);
              drafted = ground arith;
            } in
            rw e (
              then-Returns (raise_when (not (eqb (text_length (branch_hash branch)) 16)) _) _
                (λ _. result_of-Found branch pr is_listed pr.url pr.number refl refl))
      ]

  pub existing_pr-Found : (branch : String) → Returns (Found branch) (existing_pr world branch)
  unfolding existing_pr
  existing_pr-Found branch =
      bind-Returns (Printed branch)
        (run world (pr_list branch) github_auth_unavailable "GitHub pull-request lookup failed.") _
        (run-Printed branch "GitHub pull-request lookup failed.")
        (λ out p. read_rows-Found branch out (world.loads (if out == "" then "[]" else out)) p refl)
