-- ===== src/Collection/Git.antt =====
-- `GitRetriever.retrieve` of src/agentic_security/collection/git.py. `backend` is the git program.
use Prim.Native.String.{◌++◌ as append}
use agentic_sec_blog_publish.Prelude.{
  ℕ, String, Bool, true, false, not, ◌&&◌, ◌||◌, ◌==◌, some, List, eqb, leb, every, is_member,
  codes, text_length, Result, ok, err, ◌>>=◌, ◌>>◌, raise_if,
}
use agentic_sec_blog_publish.Models.Vocabulary.{SourceKind, git}
use agentic_sec_blog_publish.Models.Sources.{Source, Snapshot, is_given}
use agentic_sec_blog_publish.Sources.{RegistryError, get, host_text}
use agentic_sec_blog_publish.Collection.{Web, Origin, build_snapshot}

pub data GitError : Type 0 where
  unknown_git_source : RegistryError → GitError
  not_a_git_source unsafe_path invalid_commit : GitError
  -- CalledProcessError
  git_failed : GitError

pub record Backend : Type 0 where
  pub sync : (repository_url : String) → Result GitError (Unit {0})
  pub head : Result GitError String
  pub read : (commit_sha file_path : String) → Result GitError String
  -- `Path(file_path).parts`
  pub parts : String → List String

abbrev pub is_git : SourceKind → Bool
is_git git = true
is_git _ = false

abbrev pub is_word : ℕ → Bool
is_word c = (leb 97 c && leb c 122) || ((leb 65 c && leb c 90) || (leb 48 c && leb c 57))

-- A member of "._/-".
abbrev pub is_path_mark : ℕ → Bool
is_path_mark c = eqb c 46 || (eqb c 95 || (eqb c 47 || eqb c 45))

-- `_SAFE_PATH.fullmatch(file_path)`
unfoldable pub is_safe_path : String → Bool
is_safe_path path = not (path == "") && every (λ c. is_word c || is_path_mark c) (codes path)

-- `re.fullmatch(r"[a-f0-9]{40}", commit_sha)`
unfoldable pub is_commit : String → Bool
is_commit text =
    eqb (text_length text) 40
    && every (λ c. (leb 97 c && leb c 102) || (leb 48 c && leb c 57)) (codes text)

abbrev pub git_source : Result RegistryError Source → Result GitError Source
git_source (ok source) = ok source
git_source (err e) = err (unknown_git_source e)

abbrev pub git_origin : (snapshot_id file_path commit_sha : String) → ℕ → Source → Origin
git_origin snapshot_id file_path commit_sha now source = record {
  snapshot_id = snapshot_id;
  source_id = source.id;
  canonical_uri =
      append (host_text source.base_url) (append "@" (append commit_sha (append ":" file_path)));
  content_type = "text/markdown";
  retrieved_at = now;
  repository = source.repository;
  commit_sha = some commit_sha;
  file_path = some file_path;
}

unfoldable pub retrieve :
    Web
    → Backend
    → List Source
    → (source_id file_path snapshot_id : String) → ℕ
    → Result GitError Snapshot
unfolding is_safe_path is_commit build_snapshot
retrieve web backend sources source_id file_path snapshot_id now = do
  source ← git_source (get sources source_id)
  raise_if
      (not source.enabled
        || (not (is_git source.kind)
            || (not (is_given source.base_url) || not (is_given source.repository))))
      not_a_git_source
  raise_if (not (is_safe_path file_path) || is_member ".." (backend.parts file_path)) unsafe_path
  backend.sync (host_text source.base_url)
  commit_sha ← backend.head
  raise_if (not (is_commit commit_sha)) invalid_commit
  text ← backend.read commit_sha file_path
  ok (build_snapshot web (git_origin snapshot_id file_path commit_sha now source) text)
