-- ===== src/Publishing.antt =====
-- src/agentic_security/publishing/github.py: the downstream draft pull request. What other programs
-- answer is the argument `world`, by the number of commands that ran before; what the publication
-- validator says of a bundle is `bundle` and `bundle_at`. Directories can be made and removed.
pub mod Shell
pub mod Scan
pub mod Bundle
pub mod Projection
pub mod Remote
pub mod Draft
pub mod Guards
pub mod Outcome
pub mod Examples
use agentic_sec_blog_publish.Prelude.{
  ℕ, String, Bool, true, false, not, ◌&&◌, ◌||◌, ◌==◌, Option, none, some, List, [], ◌∷◌, ◌++◌, leb,
  eqb, any, every, Result,
}
use agentic_sec_blog_publish.Jobs.Models.{FailureCategory}

pub record PublicationHash : Type 0 where
  pub path : String
  pub sha256 : String
  pub size_bytes : ℕ

pub record PublicationManifest : Type 0 where
  pub generated_at : ℕ
  pub methodology_version : String
  pub taxonomy_version : String
  pub source_ledger_version : String
  pub content_count : ℕ
  pub confirmed_change_count : ℕ
  pub pending_review_count : ℕ
  pub files : List PublicationHash

abbrev pub same_files : List PublicationHash → List PublicationHash → Bool
same_files [] [] = true
same_files [] (b ∷ bs) = false
same_files (a ∷ more) [] = false
same_files (a ∷ more) (b ∷ bs) =
    (a.path == b.path)
    && ((a.sha256 == b.sha256) && (eqb a.size_bytes b.size_bytes && same_files more bs))

-- `a.model_dump(exclude={"generated_at"}) == b.model_dump(exclude={"generated_at"})`
unfoldable pub same_but_time : PublicationManifest → PublicationManifest → Bool
same_but_time a b =
    (a.methodology_version == b.methodology_version)
    && ((a.taxonomy_version == b.taxonomy_version)
        && ((a.source_ledger_version == b.source_ledger_version)
            && (eqb a.content_count b.content_count
                && (eqb a.confirmed_change_count b.confirmed_change_count
                    && (eqb a.pending_review_count b.pending_review_count
                        && same_files a.files b.files)))))

-- What `validate_publication_bundle` raises, where it raises.
pub data BundleError : Type 0 where
  os_error value_error : BundleError

pub data PublishError : Type 0 where
  publication_error : FailureCategory → (safe_message : String) → PublishError
  -- Raised outside of every `except`.
  unhandled : BundleError → PublishError

pub record PublishResult : Type 0 where
  pub repository : String
  pub branch : String
  pub base_branch : String
  pub artifact_hash : String
  pub pull_request_number : ℕ
  pub pull_request_url : String
  pub draft : Bool
  pub duplicate : Bool

-- A row of `gh pr list --json …`, where it is an object; the values that are missing are none.
pub record PullRequest : Type 0 where
  pub head_ref_name : Option String
  pub base_ref_name : Option String
  -- `row.get("isDraft") is True`
  pub is_draft : Bool
  pub url : Option String
  -- `int(row["number"])`, where it is a number.
  pub number : Option ℕ

-- `json.loads(stdout or "[]")`
pub data Rows : Type 0 where
  not_json not_a_list : Rows
  rows : List (Option PullRequest) → Rows

pub record CommandResult : Type 0 where
  pub returncode : ℕ
  pub stdout : String
