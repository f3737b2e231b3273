-- ===== src/Publishing/Examples.antt =====
-- A publication over a `gh` and a `git` that answer.
use agentic_sec_blog_publish.Prelude.{
  Bool, err, any, ℕ, ◌≡◌, refl, String, true, false, ◌==◌, some, [], ◌∷◌, eqb, if◌then◌else◌, chars,
  text_of, join, ok,
}
use agentic_sec_blog_publish.Publishing.{PublicationManifest, PullRequest, PublishResult, rows}
use agentic_sec_blog_publish.Publishing.Shell.{
  Command, push, pr_list, ls_remote, diff_staged, Answer, returned, run, raise_when, World,
}
use agentic_sec_blog_publish.Publishing.Remote.{
  incomplete, publication_artifact_hash, existing_pr, remote_branch_exists, branch_hash,
  is_result_branch, is_hash,
}
use agentic_sec_blog_publish.Publishing.Draft.{publish, stage, push_staged, create_and_verify_pr}
use agentic_sec_blog_publish.Publishing.Guards.{IsGuarded}
use agentic_sec_blog_publish.Publishing.Guards.Pushes.{publish-IsGuarded}
use agentic_sec_blog_publish.Publishing.Outcome.{IsOf, publish-IsOf}

abbrev pub manifest : PublicationManifest
manifest = record {
  generated_at = 7;
  methodology_version = "ASI-1.0";
  taxonomy_version = "1.0";
  source_ledger_version = "ASI-1.0";
  content_count = 1;
  confirmed_change_count = 0;
  pending_review_count = 0;
  files = record { path = "site.json"; sha256 = "c0ffee"; size_bytes = 9 } ∷ [];
}

abbrev digest : String → String
digest text = "0123456789abcdef0123456789abcdef0123456789abcdef0123456789abcdef"

abbrev answer : String → Answer
answer stdout = returned (record { returncode = 0; stdout = stdout })

-- The first lookups show nothing, the ones after six commands show what was pushed.
abbrev answers : ℕ → Command → Answer
answers n (pr_list branch) = if eqb n 1 then answer "[]" else answer branch
answers n (ls_remote remote branch) = if eqb n 2 then answer "" else answer "refs/heads/asi"
answers n diff_staged = answer "publication/site.json"
answers n _ = answer ""

abbrev is_push : Command → Bool
is_push (push branch) = true
is_push _ = false

abbrev row : String → PullRequest
row branch = record {
  head_ref_name = some branch;
  base_ref_name = some "main";
  is_draft = true;
  url = some "https://github.com/asi/site/pull/4";
  number = some 4;
}

abbrev pub world : World
world = record {
  repository = "asi/site";
  strip = λ text. text;
  splitlines = λ text. text ∷ [];
  loads = λ text. if text == "[]" then rows [] else rows (some (row text) ∷ []);
  url_host = λ text. some (some "github.com");
  suffix = λ text. ".json";
  hexdigest = digest;
  run = answers;
  bundle = ok manifest;
  bundle_at = λ n. ok manifest;
}

abbrev pub result : PublishResult
result = record {
  repository = "asi/site";
  branch = "asi/publication-0123456789abcdef";
  base_branch = "main";
  artifact_hash = digest "";
  pull_request_number = 4;
  pull_request_url = "https://github.com/asi/site/pull/4";
  draft = true;
  duplicate = false;
}

publishes : publish world "publication" [] ≡ (ok result, (publish world "publication" []).1)
unfolding publish publication_artifact_hash existing_pr remote_branch_exists stage push_staged
    create_and_verify_pr run raise_when branch_hash is_result_branch is_hash chars text_of join
publishes = refl

-- A type that starts with "-" passes the check, and is refused when the pull request is there.
refuses_late : (publish world "-x" []).0 ≡ err (incomplete world)
unfolding publish publication_artifact_hash existing_pr remote_branch_exists stage push_staged
    create_and_verify_pr run raise_when branch_hash is_result_branch is_hash chars text_of join
refuses_late = refl

-- By then its branch was pushed, before the pull request was created.
pushes_first : any (λ e. is_push e.command) (publish world "-x" []).1 ≡ true
unfolding publish publication_artifact_hash existing_pr remote_branch_exists stage push_staged
    create_and_verify_pr run raise_when branch_hash is_result_branch is_hash chars text_of join
pushes_first = refl

publish-IsGuarded_example : IsGuarded world (publish world "publication" []).1
publish-IsGuarded_example = publish-IsGuarded world "publication"

publish-IsOf_example : IsOf world "publication" result
publish-IsOf_example =
    publish-IsOf world "publication" result (publish world "publication" []).1 publishes
