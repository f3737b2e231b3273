-- ===== src/Publishing/Shell.antt =====
-- The commands of `GitHubDraftPublisher`, and `_run`: each is recorded with its answer.
use Prim.Native.String.{◌++◌ as append}
use agentic_sec_blog_publish.Prelude.{
  ℕ, String, Bool, true, false, Option, List, [], ◌∷◌, eqb, length, if◌then◌else◌, Result, ok, err,
}
use agentic_sec_blog_publish.Jobs.Models.{FailureCategory}
use agentic_sec_blog_publish.Publishing.{
  PublicationManifest, BundleError, PublishError, publication_error, CommandResult, Rows,
}

pub data Command : Type 0 where
  auth_status fetch_main diff_branch : Command
  config_name config_email add_publication diff_staged : Command
  pr_list pr_create checkout push : (branch : String) → Command
  ls_remote : (remote branch : String) → Command
  clone : (branch url : String) → Command
  commit : (message : String) → Command

-- An OSError, or what the program returned.
pub data Answer : Type 0 where
  not_started : Answer
  returned : CommandResult → Answer

pub record Entry : Type 0 where
  pub command : Command
  pub answer : Answer

-- The commands that ran, the last one first.
abbrev pub Log : Type 0
Log = List Entry

pub record World : Type 0 where
  pub repository : String
  pub strip : String → String
  pub splitlines : String → List String
  -- `json.loads`
  pub loads : String → Rows
  -- `HttpUrl(text).host`, where the text is a URL.
  pub url_host : String → Option (Option String)
  -- `Path(path).suffix.lower()`
  pub suffix : String → String
  -- `hashlib.sha256(text.encode("utf-8")).hexdigest()`
  pub hexdigest : String → String
  pub run : ℕ → Command → Answer
  -- `validate_publication_bundle` of the bundle that is published.
  pub bundle : Result BundleError PublicationManifest
  -- The same of the directory publication/ of the worktree, after so many commands.
  pub bundle_at : ℕ → Result BundleError PublicationManifest

abbrev pub clone_url : World → String
clone_url world = append "https://github.com/" (append world.repository ".git")

-- The arguments of a command in a worktree at `path`; `repository` is the downstream one.
abbrev pub arguments : (repository path title : String) → Command → List String
arguments repository path title auth_status = "gh" ∷ "auth" ∷ "status" ∷ []
arguments repository path title (pr_list branch) =
    "gh" ∷ "pr" ∷ "list" ∷ "--repo" ∷ repository ∷ "--head" ∷ branch ∷ "--state" ∷ "all" ∷ "--json"
    ∷ "number,url,isDraft,headRefName,baseRefName" ∷ []
arguments repository path title (ls_remote remote branch) =
    "git" ∷ "ls-remote" ∷ "--heads" ∷ remote ∷ append "refs/heads/" branch ∷ []
arguments repository path title (clone branch url) =
    "git" ∷ "clone" ∷ "--filter=blob:none" ∷ "--single-branch" ∷ "--branch" ∷ branch ∷ url ∷ path
    ∷ []
arguments repository path title fetch_main =
    "git" ∷ "fetch" ∷ "--quiet" ∷ "origin" ∷ "main:refs/remotes/origin/main" ∷ []
arguments repository path title diff_branch =
    "git" ∷ "diff" ∷ "--name-only" ∷ "origin/main...HEAD" ∷ []
arguments repository path title (pr_create branch) =
    "gh" ∷ "pr" ∷ "create" ∷ "--repo" ∷ repository ∷ "--draft" ∷ "--base" ∷ "main" ∷ "--head"
    ∷ branch ∷ "--title" ∷ title ∷ "--body"
    ∷ "Validated public-safe ASI projection. Human review and merge are required." ∷ []
arguments repository path title (checkout branch) = "git" ∷ "checkout" ∷ "-b" ∷ branch ∷ []
arguments repository path title config_name = "git" ∷ "config" ∷ "user.name" ∷ "ASI Runtime" ∷ []
arguments repository path title config_email =
    "git" ∷ "config" ∷ "user.email" ∷ "223556219+Copilot@users.noreply.github.com" ∷ []
arguments repository path title add_publication = "git" ∷ "add" ∷ "--" ∷ "publication" ∷ []
arguments repository path title diff_staged = "git" ∷ "diff" ∷ "--cached" ∷ "--name-only" ∷ []
arguments repository path title (commit message) = "git" ∷ "commit" ∷ "-m" ∷ message ∷ []
arguments repository path title (push branch) =
    "git" ∷ "push" ∷ "origin" ∷ append "HEAD:refs/heads/" branch ∷ []

-- What runs commands and may raise.
abbrev pub Action : Type 0 → Type 0
Action A = Log → Result PublishError A × Log

abbrev pub and_then :
    {A B : Type 0} → Result PublishError A × Log → (A → Action B) → Result PublishError B × Log
and_then (ok a, log) f = f a log
and_then (err e, log) f = (err e, log)

infixl 5 ◌>>=◌ ◌>>◌
abbrev pub ◌>>=◌ : {A B : Type 0} → Action A → (A → Action B) → Action B
(m >>= f) log = and_then (m log) f

abbrev pub ◌>>◌ : {A B : Type 0} → Action A → Action B → Action B
m >> k = m >>= λ _. k

abbrev pub return : {A : Type 0} → A → Action A
return a log = (ok a, log)

abbrev pub raise : {A : Type 0} → PublishError → Action A
raise e log = (err e, log)

unfoldable pub raise_when : Bool → PublishError → Action (Unit {0})
raise_when true e = raise e
raise_when false e = return tt

-- What `_run` makes of an answer.
abbrev pub output : FailureCategory → String → Answer → Result PublishError String
output category safe_message not_started = err (publication_error category safe_message)
output category safe_message (returned result) =
    if eqb result.returncode 0
    then ok result.stdout
    else err (publication_error category safe_message)

module _ (world : World) where
  unfoldable pub run : Command → FailureCategory → String → Action String
  run command category safe_message log =
      let answer = world.run (length log) command in
      (output category safe_message answer, record { command = command; answer = answer } ∷ log)
