-- ===== src/Publishing/Draft.antt =====
-- The methods of `GitHubDraftPublisher`.
use Prim.Native.String.{◌++◌ as append}
use text.Mathlib.Text.{starts_with}
use agentic_sec_blog_publish.Prelude.{
  String, Bool, true, false, not, ◌&&◌, ◌==◌, Option, none, some, List, [], ◌∷◌, map, every, length,
  select, is_empty, is_member, text_slice, Result, ok, err,
}
use agentic_sec_blog_publish.Jobs.Models.{github_auth_unavailable, internal_error}
use agentic_sec_blog_publish.Publishing.{
  PublicationManifest, same_but_time, BundleError, PublishError, unhandled, PublishResult,
}
use agentic_sec_blog_publish.Publishing.Shell.{
  auth_status, fetch_main, diff_branch, config_name, config_email, add_publication, diff_staged,
  pr_create, checkout, push, ls_remote, clone, commit, Log, World, clone_url, Action, and_then,
  ◌>>=◌, ◌>>◌, return, raise, raise_when, run,
}
use agentic_sec_blog_publish.Publishing.Remote.{
  branch_of, existing_pr, has_text, is_valid_type, publication_artifact_hash, refusal,
  remote_branch_exists,
}

module _ (world : World) where
  -- The lines of a listing that are not blank, stripped.
  abbrev pub listed : String → List String
  listed stdout = select (λ line. not (line == "")) (map world.strip (world.splitlines stdout))

  abbrev pub is_publication_path : String → Bool
  is_publication_path path = starts_with path "publication/"

  -- Some path, and all of them below publication/.
  abbrev pub only_publication : String → Bool
  only_publication stdout =
      not (is_empty (listed stdout)) && every is_publication_path (listed stdout)

  abbrev pub is_database : String → Bool
  is_database path = is_member (world.suffix path) (".db" ∷ ".sqlite" ∷ ".sqlite3" ∷ [])

  -- Some path, and all of them below publication/ and no databases.
  abbrev pub is_publishable : String → Bool
  is_publishable stdout =
      not (is_empty (listed stdout))
      && every (λ path. is_publication_path path && not (is_database path)) (listed stdout)

  -- A bundle whose refusal is caught.
  abbrev pub caught_bundle :
      String → Result BundleError PublicationManifest → Action PublicationManifest
  caught_bundle safe_message (ok manifest) = return manifest
  caught_bundle safe_message (err e) = raise (refusal safe_message)

  -- One whose refusal is not.
  abbrev pub uncaught_bundle : Result BundleError PublicationManifest → Action PublicationManifest
  uncaught_bundle (ok manifest) = return manifest
  uncaught_bundle (err e) = raise (unhandled e)

  abbrev pub remote_bundle : Action PublicationManifest
  remote_bundle log =
      caught_bundle "The existing publication branch contains an invalid public bundle."
        (world.bundle_at (length log)) log

  abbrev pub copied_bundle : Action PublicationManifest
  copied_bundle log = uncaught_bundle (world.bundle_at (length log)) log

  -- `_validate_remote_branch`
  unfoldable pub validate_remote_branch :
      (branch artifact_hash : String) → PublicationManifest → Action (Unit {0})
  unfolding raise_when publication_artifact_hash
  validate_remote_branch branch artifact_hash local_manifest = do
    run world (clone branch (clone_url world)) github_auth_unavailable
        "The existing publication branch could not be cloned."
    run world fetch_main github_auth_unavailable "The downstream main branch could not be fetched."
    changed ←
        run world diff_branch internal_error
          "The existing publication branch scope could not be verified."
    raise_when (not (only_publication changed))
        (refusal "The existing publication branch changes files outside publication/.")
    remote ← remote_bundle
    raise_when (not (publication_artifact_hash world remote == artifact_hash))
        (refusal "The existing publication branch does not match the requested artifact.")
    raise_when (not (same_but_time remote local_manifest))
        (refusal "The existing publication manifest does not match the requested artifact.")

  -- `model_copy(update=…)`, which no validator sees.
  abbrev pub stamped : (artifact_hash : String) → Bool → PublishResult → PublishResult
  stamped artifact_hash duplicate result = record result {
    artifact_hash = artifact_hash;
    duplicate = duplicate;
  }

  abbrev pub or_reraise : PublishError → String → Option PublishResult → Action PublishResult
  or_reraise e artifact_hash none = raise e
  or_reraise e artifact_hash (some raced) = return (stamped artifact_hash true raced)

  abbrev pub or_unverified : String → Bool → Option PublishResult → Action PublishResult
  or_unverified artifact_hash duplicate none =
      raise (refusal "The draft publication pull request could not be verified.")
  or_unverified artifact_hash duplicate (some created) =
      return (stamped artifact_hash duplicate created)

  abbrev pub after_create :
      (branch artifact_hash : String)
      → Bool
      → Result PublishError String × Log
      → Result PublishError PublishResult × Log
  after_create branch artifact_hash duplicate (ok stdout, log) =
      and_then (existing_pr world branch log) (or_unverified artifact_hash duplicate)
  after_create branch artifact_hash duplicate (err e, log) =
      and_then (existing_pr world branch log) (or_reraise e artifact_hash)

  -- `_create_and_verify_pr`
  unfoldable pub create_and_verify_pr :
      (branch artifact_hash : String) → Bool → Action PublishResult
  unfolding existing_pr
  create_and_verify_pr branch artifact_hash duplicate log =
      after_create branch artifact_hash duplicate (
        run world (pr_create branch) github_auth_unavailable
          "The draft publication pull request could not be created." log)

  -- The clone of main, the bundle in it, and what is staged.
  unfoldable pub stage : String → Action (Unit {0})
  unfolding raise_when
  stage branch = do
    run world (clone "main" (clone_url world)) github_auth_unavailable
        "The downstream publication repository could not be cloned."
    run world (checkout branch) internal_error "The draft publication branch could not be created."
    copied_bundle
    run world config_name internal_error "The local publication identity could not be configured."
    run world config_email internal_error "The local publication identity could not be configured."
    run world add_publication internal_error "The public bundle could not be staged."
    staged ←
        run world diff_staged internal_error "The staged publication files could not be verified."
    raise_when (not (is_publishable staged))
        (refusal "Only validated public bundle files may be committed.")

  abbrev pub commit_message : String → String
  commit_message artifact_hash = append "Publish ASI bundle " (
      append (text_slice 0 16 artifact_hash)
        "\n\nCo-authored-by: Copilot <223556219+Copilot@users.noreply.github.com>")

  -- The commit, the push, and the look at the branch that was pushed.
  unfoldable pub push_staged : (branch artifact_hash : String) → Action (Unit {0})
  unfolding raise_when
  push_staged branch artifact_hash = do
    run world (commit (commit_message artifact_hash)) internal_error
        "The public bundle commit could not be created."
    run world (push branch) github_auth_unavailable
        "The draft publication branch could not be pushed."
    verified ←
        run world (ls_remote "origin" branch) github_auth_unavailable
          "The pushed publication branch could not be verified."
    raise_when (not (has_text world verified))
        (refusal "The pushed publication branch was not found.")

  abbrev pub publish_new : (branch artifact_hash : String) → Action PublishResult
  publish_new branch artifact_hash = do
    stage branch
    push_staged branch artifact_hash
    create_and_verify_pr branch artifact_hash false

  abbrev pub publish_to :
      (branch artifact_hash : String)
      → PublicationManifest
      → Option PublishResult
      → Bool
      → Action PublishResult
  publish_to branch artifact_hash manifest (some existing) false =
      raise (refusal "The existing publication branch was not found.")
  publish_to branch artifact_hash manifest (some existing) true = do
    validate_remote_branch branch artifact_hash manifest
    return (stamped artifact_hash existing.duplicate existing)
  publish_to branch artifact_hash manifest none true = do
    validate_remote_branch branch artifact_hash manifest
    create_and_verify_pr branch artifact_hash true
  publish_to branch artifact_hash manifest none false = publish_new branch artifact_hash

  abbrev pub publish_as :
      (branch artifact_hash : String) → PublicationManifest → Action PublishResult
  publish_as branch artifact_hash manifest = do
    run world auth_status github_auth_unavailable "GitHub authentication is unavailable."
    existing ← existing_pr world branch
    remote_exists ← remote_branch_exists world branch
    publish_to branch artifact_hash manifest existing remote_exists

  unfoldable pub publish : (artifact_type : String) → Action PublishResult
  unfolding raise_when existing_pr remote_branch_exists validate_remote_branch create_and_verify_pr
      stage push_staged publication_artifact_hash
  publish artifact_type = do
    raise_when (not (is_valid_type artifact_type))
        (refusal "The publication artifact type is invalid.")
    manifest ← caught_bundle "The public bundle failed validation." world.bundle
    publish_as (branch_of world artifact_type (publication_artifact_hash world manifest))
        (publication_artifact_hash world manifest) manifest
