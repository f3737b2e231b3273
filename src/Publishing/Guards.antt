-- ===== src/Publishing/Guards.antt =====
-- A log in which every push is justified, and rules to prove it of actions.
pub mod Lookups
pub mod Pushes
use agentic_sec_blog_publish.Prelude.{
  ℕ, ◌≡◌, ◌≢◌, refl, sym, subst, inl, inr, String, Bool, true, false, not, ◌==◌, ◌&&◌, leb,
  text_length, Option, none, some, List, [], ◌∷◌, length, Memᴰ, All, All-imp, mem-All, eqb,
  Bool-cases, Result, ok, err, arith, if◌then◌else◌,
}
use Prim.Native.String.{◌++◌ as append}
use agentic_sec_blog_publish.Jobs.Models.{FailureCategory, github_auth_unavailable, internal_error}
use agentic_sec_blog_publish.Publishing.{
  PublicationManifest, BundleError, PublishError, PublishResult, same_but_time, Rows, not_json,
  not_a_list, rows, PullRequest, CommandResult,
}
use agentic_sec_blog_publish.Publishing.Shell.{
  Command, push, pr_create, diff_staged, ls_remote, pr_list, commit, Answer, not_started, returned,
  Entry, Log, World, clone_url, Action, and_then, output, ◌>>=◌, ◌>>◌, return, raise, raise_when,
  run,
}
use agentic_sec_blog_publish.Publishing.Remote.{
  existing_pr, read_rows, is_result_branch, is_hash, branch_hash, zeros, build_result, hosted,
  result_of, is_our_draft, not_draft, remote_branch_exists, is_valid_type, branch_of, refusal,
  publication_artifact_hash, has_text,
}
use agentic_sec_blog_publish.Publishing.Draft.{
  caught_bundle, uncaught_bundle, remote_bundle, copied_bundle, or_unverified, or_reraise,
  after_create, validate_remote_branch, create_and_verify_pr, publish_to, publish_as,
  only_publication, stage, push_staged, publish_new, publish, is_publishable,
}

-- A command that succeeded with this output.
abbrev pub succeeded : Command → String → Entry
succeeded command stdout = record {
  command = command;
  answer = returned (record { returncode = 0; stdout = stdout });
}

module _ (world : World) where
  -- Before a push to the branch: the remote had no such branch, and what is staged is publishable.
  pub record PushSafe (branch : String) (earlier : Log) : Type 0 where
    pub looked : String
    pub absent : has_text world looked ≡ false
    pub asked : Memᴰ (succeeded (ls_remote (clone_url world) branch) looked) earlier
    pub staged : String
    pub publishable : is_publishable world staged ≡ true
    pub listed : Memᴰ (succeeded diff_staged staged) earlier

  abbrev pub IsSafe : Command → Log → Type 0
  IsSafe (push branch) earlier = PushSafe branch earlier
  IsSafe _ earlier = Unit

  abbrev pub IsGuarded : Log → Type 0
  IsGuarded [] = Unit
  IsGuarded (e ∷ earlier) = IsSafe e.command earlier × IsGuarded earlier

  -- A guarded log that holds these entries.
  abbrev pub Holds : List Entry → Log → Type 0
  Holds facts log = IsGuarded log × All (λ e. Memᴰ e log) facts

  abbrev pub Ends : {A : Type 0} → (A → Log → Type 0) → Result PublishError A × Log → Type 0
  Ends post (ok a, log) = post a log
  Ends post (err e, log) = IsGuarded log

  -- From a log that satisfies `pre`, the action ends with `post`, or raises with a guarded log.
  pub record Spec {A : Type 0} (pre : Log → Type 0) (action : Action A) (post : A → Log → Type 0)
      : Type 0 where
    pub ends : (log : Log) → pre log → Ends post (action log)

  pub bind-Spec :
      {A B : Type 0} {pre : Log → Type 0} (mid : A → Log → Type 0) {post : B → Log → Type 0}
      (m : Action A) (f : A → Action B)
      → Spec pre m mid
      → ((a : A) → Spec (mid a) (f a) post)
      → Spec pre (m >>= f) post
  bind-Spec {A} {B} {pre} mid {post} m f hm hf = record {
    ends = λ log h. go (m log) (hm.ends log h);
  }
    where
      go : (r : Result PublishError A × Log) → Ends mid r → Ends post (and_then r f)
      go (ok a, after) k = (hf a).ends after k
      go (err e, after) k = k

  pub later :
      (facts : List Entry) (e : Entry) (log : Log)
      → IsSafe e.command log
      → Holds facts log
      → Holds facts (e ∷ log)
  later facts e log safe h = ((safe, h.0), All-imp facts (λ x m. Memᴰ.tail m) h.1)

  pub answer-Ends :
      (facts : List Entry) (command : Command) (category : FailureCategory) (message : String)
      (log : Log) (answer : Answer)
      → IsSafe command log
      → Holds facts log
      → Ends
          (λ out after. Holds (succeeded command out ∷ facts) after)
          (output category message answer, record { command = command; answer = answer } ∷ log)
  answer-Ends facts command category message log not_started safe h = (safe, h.0)
  answer-Ends facts command category message log (returned result) safe h =
      let entry : Entry = record { command = command; answer = returned result } in
      elim (Bool-cases (eqb result.returncode 0)) [
        | inr e ↦ simp e (safe, h.0)
        | inl e ↦
            let zero : result.returncode ≡ 0 = ground arith in
            let same : succeeded command result.stdout ≡ entry = ground (arith, zero) in
            let k = later facts entry log safe h in simp e (k.0, (Memᴰ.head same, k.1))
      ]

  pub run-Spec :
      (facts : List Entry) (command : Command) (category : FailureCategory) (message : String)
      → ((log : Log) → Holds facts log → IsSafe command log)
      → Spec
          (Holds facts)
          (run world command category message)
          (λ out. Holds (succeeded command out ∷ facts))
  unfolding run
  run-Spec facts command category message safe = record {
    ends = λ log h.
        answer-Ends facts command category message log (world.run (length log) command) (safe log h)
          h;
  }

  -- The same, where what it printed is not needed.
  pub keep-Spec :
      (facts : List Entry) (command : Command) (category : FailureCategory) (message : String)
      → ((log : Log) → Holds facts log → IsSafe command log)
      → Spec (Holds facts) (run world command category message) (λ _. Holds facts)
  keep-Spec facts command category message safe = record {
    ends = λ log h.
        go (run world command category message log)
          ((run-Spec facts command category message safe).ends log h);
  }
    where
      go :
          (r : Result PublishError String × Log)
          → Ends (λ out. Holds (succeeded command out ∷ facts)) r
          → Ends (λ _. Holds facts) r
      go (ok out, after) k = (k.0, (k.1).1)
      go (err e, after) k = k

  -- An action that only looks at what it is given.
  pub pure-Spec :
      {A : Type 0} (facts : List Entry) (m : Action A)
      → ((log : Log) → (m log).1 ≡ log)
      → Spec (Holds facts) m (λ _. Holds facts)
  pure-Spec {A} facts m same = record { ends = λ log h. go log h (m log) (same log) }
    where
      go :
          (log : Log)
          → Holds facts log
          → (r : Result PublishError A × Log) → r.1 ≡ log
          → Ends (λ _. Holds facts) r
      go log h (ok a, after) e = subst (Holds facts) (sym e) h
      go log h (err x, after) e = subst IsGuarded (sym e) h.0

  -- After a test that did not raise, it is known to be false.
  pub unless-Spec :
      {pre : Log → Type 0} (b : Bool) (e : PublishError)
      → ((log : Log) → pre log → IsGuarded log)
      → Spec pre (raise_when b e) (λ _ log. (b ≡ false) × pre log)
  unfolding raise_when
  unless-Spec true e guarded = record { ends = guarded }
  unless-Spec false e guarded = record { ends = λ log h. (refl, h) }

  -- A step that keeps what is known, then the rest.
  pub then-Spec :
      {A B : Type 0} {post : B → Log → Type 0} (facts : List Entry) (m : Action A)
      (f : A → Action B)
      → Spec (Holds facts) m (λ _. Holds facts)
      → ((a : A) → Spec (Holds facts) (f a) post)
      → Spec (Holds facts) (m >>= f) post
  then-Spec facts m f h k = bind-Spec (λ _. Holds facts) m f h k

  pub check-Spec :
      (facts : List Entry) (b : Bool) (e : PublishError)
      → Spec (Holds facts) (raise_when b e) (λ _. Holds facts)
  unfolding raise_when
  check-Spec facts true e = record { ends = λ log h. h.0 }
  check-Spec facts false e = record { ends = λ log h. h }

  pub return-Spec :
      {A : Type 0} (facts : List Entry) (a : A) → Spec (Holds facts) (return a) (λ _. Holds facts)
  return-Spec facts a = record { ends = λ log h. h }

  pub raise-Spec :
      {A : Type 0} (facts : List Entry) (e : PublishError)
      → Spec (Holds facts) (raise {A = A} e) (λ _. Holds facts)
  raise-Spec facts e = record { ends = λ log h. h.0 }
