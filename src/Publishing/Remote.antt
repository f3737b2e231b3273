-- ===== src/Publishing/Remote.antt =====
-- What `GitHubDraftPublisher` asks the downstream repository: the branch, and its pull request.
use Prim.Native.Char.{Char, code}
use Prim.Native.String.{◌++◌ as append}
use text.Mathlib.Text.{starts_with}
use agentic_sec_blog_publish.Prelude.{
  ℕ, String, Bool, true, false, not, ◌&&◌, ◌||◌, ◌==◌, Option, none, some, List, [], ◌∷◌, ◌++◌, map,
  leb, eqb, every, drop, if◌then◌else◌, join, codes, chars, text_of, text_slice, text_length,
}
use agentic_sec_blog_publish.Jobs.Models.{github_auth_unavailable, publication_validation_failed}
use agentic_sec_blog_publish.Publishing.{
  PublicationHash, PublicationManifest, PublishError, publication_error, PublishResult, PullRequest,
  Rows, rows,
}
use agentic_sec_blog_publish.Publishing.Shell.{
  pr_list, ls_remote, World, clone_url, Action, ◌>>=◌, ◌>>◌, return, raise, raise_when, run,
}

abbrev pub refusal : String → PublishError
refusal safe_message = publication_error publication_validation_failed safe_message

abbrev pub is_alphanumeric : ℕ → Bool
is_alphanumeric c = (leb 97 c && leb c 122) || (leb 48 c && leb c 57)

abbrev pub is_slug_character : ℕ → Bool
is_slug_character c = is_alphanumeric c || eqb c 45

abbrev pub is_slug : List ℕ → Bool
is_slug [] = false
is_slug (c ∷ cs) = is_alphanumeric c && every is_slug_character cs

-- `^asi/[a-z0-9][a-z0-9-]*$`
unfoldable pub is_result_branch : String → Bool
is_result_branch branch = starts_with branch "asi/" && is_slug (drop 4 (codes branch))

-- `^[a-f0-9]{64}$`
unfoldable pub is_hash : String → Bool
is_hash text =
    eqb (text_length text) 64
    && every (λ c. (leb 97 c && leb c 102) || (leb 48 c && leb c 57)) (codes text)

-- What follows the last "-".
abbrev pub last_piece : List Char → List Char → List Char
last_piece piece [] = piece
last_piece piece (c ∷ cs) = last_piece (if eqb (code c) 45 then [] else piece ++ (c ∷ [])) cs

-- `branch.rsplit("-", 1)[-1]`
unfoldable pub branch_hash : String → String
branch_hash branch = text_of (last_piece [] (chars branch))

-- "0" * 48
abbrev pub zeros : String
zeros = "000000000000000000000000000000000000000000000000"

abbrev pub is_text : String → Option String → Bool
is_text text none = false
is_text text (some found) = found == text

abbrev pub file_lines : List PublicationHash → List String
file_lines files = map (λ file. append file.path (append ":" file.sha256)) files

abbrev pub is_valid_type : String → Bool
is_valid_type artifact_type =
    not (artifact_type == "") && every is_slug_character (codes artifact_type)

module _ (world : World) where
  unfoldable pub publication_artifact_hash : PublicationManifest → String
  publication_artifact_hash manifest = world.hexdigest (join "\n" (file_lines manifest.files))

  -- `f"asi/{artifact_type}-{artifact_hash[:16]}"`
  abbrev pub branch_of : (artifact_type artifact_hash : String) → String
  branch_of artifact_type artifact_hash =
      append "asi/" (append artifact_type (append "-" (text_slice 0 16 artifact_hash)))

  abbrev pub incomplete : PublishError
  incomplete = refusal "GitHub returned incomplete pull-request metadata."

  -- `PublishResult(…)`, whose fields are checked.
  abbrev pub build_result : (branch suffix url : String) → ℕ → Action (Option PublishResult)
  build_result branch suffix url number =
      if is_result_branch branch && (is_hash (append zeros suffix) && leb 1 number)
      then return (
          some (record {
            repository = world.repository;
            branch = branch;
            base_branch = "main";
            artifact_hash = append zeros suffix;
            pull_request_number = number;
            pull_request_url = url;
            draft = true;
            duplicate = true;
          }))
      else raise incomplete

  abbrev pub hosted : Option (Option String) → Bool
  hosted none = false
  hosted (some host) = is_text "github.com" host

  abbrev pub result_of : String → Option String → Option ℕ → Action (Option PublishResult)
  result_of branch (some url) (some number) =
      if hosted (world.url_host url)
      then build_result branch (branch_hash branch) url number
      else raise incomplete
  result_of branch _ _ = raise incomplete

  abbrev pub is_our_draft : String → PullRequest → Bool
  is_our_draft branch pr =
      is_text branch pr.head_ref_name && (is_text "main" pr.base_ref_name && pr.is_draft)

  abbrev pub not_draft : PublishError
  not_draft = refusal "An existing publication pull request is not draft-only against main."

  abbrev pub read_rows : String → Rows → Action (Option PublishResult)
  read_rows branch (rows []) = return none
  read_rows branch (rows (none ∷ more)) = raise not_draft
  read_rows branch (rows (some pr ∷ more)) = do
    raise_when (not (is_our_draft branch pr)) not_draft
    raise_when (not (eqb (text_length (branch_hash branch)) 16))
        (refusal "The existing publication branch is malformed.")
    result_of branch pr.url pr.number
  read_rows branch _ = raise (refusal "GitHub returned an invalid pull-request response.")

  -- `_existing_pr`
  unfoldable pub existing_pr : String → Action (Option PublishResult)
  unfolding raise_when is_result_branch is_hash branch_hash
  existing_pr branch = do
    stdout ← run world (pr_list branch) github_auth_unavailable "GitHub pull-request lookup failed."
    read_rows branch (world.loads (if stdout == "" then "[]" else stdout))

  abbrev pub has_text : String → Bool
  has_text stdout = not (world.strip stdout == "")

  -- `_remote_branch_exists`
  unfoldable pub remote_branch_exists : String → Action Bool
  remote_branch_exists branch = do
    stdout ←
        run world (ls_remote (clone_url world) branch) github_auth_unavailable
          "The publication branch could not be inspected."
    return (has_text stdout)
