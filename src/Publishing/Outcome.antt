-- ===== src/Publishing/Outcome.antt =====
-- What `publish` returns, where it returns.
pub mod PullRequests
use agentic_sec_blog_publish.Prelude.{
  ℕ, ◌≡◌, ◌≤◌, refl, subst, ◌⊎◌, String, Bool, true, false, not, ◌==◌, ◌&&◌, eqb, leb, text_length,
  Option, none, some, [], ◌∷◌, inl, inr, Bool-cases, Result, ok, err, arith, if◌then◌else◌,
}
use Prim.Native.String.{◌++◌ as append}
use agentic_sec_blog_publish.Jobs.Models.{github_auth_unavailable, publication_validation_failed}
use agentic_sec_blog_publish.Publishing.{
  PublicationManifest, BundleError, PublishError, publication_error, PublishResult, Rows, not_json,
  not_a_list, rows,
}
use agentic_sec_blog_publish.Publishing.Shell.{
  auth_status, pr_list, pr_create, Log, World, Action, and_then, ◌>>=◌, return, raise, raise_when,
  run,
}
use agentic_sec_blog_publish.Publishing.Remote.{
  is_result_branch, is_hash, branch_hash, zeros, build_result, hosted, result_of, is_our_draft,
  not_draft, read_rows, existing_pr, remote_branch_exists, is_valid_type, branch_of,
  publication_artifact_hash, refusal,
}
use agentic_sec_blog_publish.Publishing.Draft.{
  validate_remote_branch, stamped, or_reraise, or_unverified, after_create, create_and_verify_pr,
  stage, push_staged, publish_to, publish_as, caught_bundle, publish,
}
use agentic_sec_blog_publish.Publishing.Outcome.PullRequests.{
  Gives, Returns, bind-Returns, any-Returns, then-Returns, raise-Returns, return-Returns, IsDraft,
  Found, existing_pr-Found,
}

module _ (world : World) where
  -- Such a pull request, with the hash of the bundle.
  pub record IsPublished (branch hash : String) (result : PublishResult) : Type 0 where
    pub is_draft : IsDraft world branch result
    pub same_hash : result.artifact_hash ≡ hash

  stamped-IsPublished :
      (branch hash : String) (duplicate : Bool) (result : PublishResult)
      → IsDraft world branch result
      → IsPublished branch hash (stamped world hash duplicate result)
  stamped-IsPublished branch hash duplicate result d = record {
    is_draft = record {
      pr = d.pr;
      is_listed = d.is_listed;
      its_url = d.its_url;
      its_number = d.its_number;
      repository = d.repository;
      same_branch = d.same_branch;
      base = d.base;
      is_draft = d.is_draft;
      on_github = d.on_github;
      numbered = d.numbered;
      branch_shape = d.branch_shape;
    };
    same_hash = refl;
  }

  or_unverified-IsPublished :
      (branch hash : String) (duplicate : Bool) (found : Option PublishResult)
      → Found world branch found
      → Returns (IsPublished branch hash) (or_unverified world hash duplicate found)
  or_unverified-IsPublished branch hash duplicate none h = raise-Returns _
  or_unverified-IsPublished branch hash duplicate (some created) h =
      return-Returns _ (stamped-IsPublished branch hash duplicate created h)

  or_reraise-IsPublished :
      (e : PublishError) (branch hash : String) (found : Option PublishResult)
      → Found world branch found
      → Returns (IsPublished branch hash) (or_reraise world e hash found)
  or_reraise-IsPublished e branch hash none h = raise-Returns _
  or_reraise-IsPublished e branch hash (some raced) h =
      return-Returns _ (stamped-IsPublished branch hash true raced h)

  create_and_verify_pr-IsPublished :
      (branch hash : String) (duplicate : Bool)
      → Returns (IsPublished branch hash) (create_and_verify_pr world branch hash duplicate)
  unfolding create_and_verify_pr
  create_and_verify_pr-IsPublished branch hash duplicate = record {
    gives = λ log. go (run world (pr_create branch) _ _ log);
  }
    where
      go :
          (r : Result PublishError String × Log)
          → Gives (IsPublished branch hash) (after_create world branch hash duplicate r)
      go (ok out, log) =
          (bind-Returns (Found world branch) (existing_pr world branch)
              (or_unverified world hash duplicate) (existing_pr-Found world branch)
              (or_unverified-IsPublished branch hash duplicate)).gives
            log
      go (err e, log) =
          (bind-Returns (Found world branch) (existing_pr world branch) (or_reraise world e hash)
              (existing_pr-Found world branch) (or_reraise-IsPublished e branch hash)).gives
            log

  publish_to-IsPublished :
      (branch hash : String) (manifest : PublicationManifest) (existing : Option PublishResult)
      (exists : Bool)
      → Found world branch existing
      → Returns (IsPublished branch hash) (publish_to world branch hash manifest existing exists)
  publish_to-IsPublished branch hash manifest (some existing) false h = raise-Returns _
  publish_to-IsPublished branch hash manifest (some existing) true h =
      then-Returns (validate_remote_branch world branch hash manifest) _
        (λ _. return-Returns _ (stamped-IsPublished branch hash existing.duplicate existing h))
  publish_to-IsPublished branch hash manifest none true h =
      then-Returns (validate_remote_branch world branch hash manifest) _
        (λ _. create_and_verify_pr-IsPublished branch hash true)
  publish_to-IsPublished branch hash manifest none false h =
      then-Returns (stage world branch) _ (λ _.
        then-Returns (push_staged world branch hash) _
          (λ _. create_and_verify_pr-IsPublished branch hash false))

  publish_as-IsPublished :
      (branch hash : String) (manifest : PublicationManifest)
      → Returns (IsPublished branch hash) (publish_as world branch hash manifest)
  publish_as-IsPublished branch hash manifest =
      then-Returns
        (run world auth_status github_auth_unavailable "GitHub authentication is unavailable.") _
        (λ _.
          bind-Returns (Found world branch) (existing_pr world branch) _
            (existing_pr-Found world branch)
            (λ existing h.
              then-Returns (remote_branch_exists world branch) _
                (λ exists. publish_to-IsPublished branch hash manifest existing exists h)))

  -- The bundle was valid, and the result is of it.
  pub record IsOf (artifact_type : String) (result : PublishResult) : Type 0 where
    pub manifest : PublicationManifest
    pub valid : world.bundle ≡ ok manifest
    pub published :
        IsPublished
          (branch_of world artifact_type (publication_artifact_hash world manifest))
          (publication_artifact_hash world manifest)
          result

  publish_as-IsOf :
      (artifact_type : String) (manifest : PublicationManifest)
      → world.bundle ≡ ok manifest
      → Returns (IsOf artifact_type) (
          publish_as world
            (branch_of world artifact_type (publication_artifact_hash world manifest))
            (publication_artifact_hash world manifest)
            manifest)
  publish_as-IsOf artifact_type manifest valid =
      let hash = publication_artifact_hash world manifest in
      let branch = branch_of world artifact_type hash in
      record {
        gives = λ log.
            go (publish_as world branch hash manifest log)
              ((publish_as-IsPublished branch hash manifest).gives log);
      }
    where
      go :
          (r : Result PublishError PublishResult × Log)
          → Gives
              (IsPublished
                (branch_of world artifact_type (publication_artifact_hash world manifest))
                (publication_artifact_hash world manifest))
              r
          → Gives (IsOf artifact_type) r
      go (ok result, log) k = record { manifest = manifest; valid = valid; published = k }
      go (err e, log) k = tt

  caught-Returns :
      (message : String) (found : Result BundleError PublicationManifest)
      → Returns (λ manifest. found ≡ ok manifest) (caught_bundle world message found)
  caught-Returns message (ok manifest) = return-Returns manifest refl
  caught-Returns message (err x) = raise-Returns _

  publish-Returns :
      (artifact_type : String) → Returns (IsOf artifact_type) (publish world artifact_type)
  unfolding publish
  publish-Returns artifact_type =
      then-Returns
        (raise_when (not (is_valid_type artifact_type))
          (refusal "The publication artifact type is invalid."))
        _
        (λ _.
          bind-Returns (λ manifest. world.bundle ≡ ok manifest)
            (caught_bundle world "The public bundle failed validation." world.bundle) _
            (caught-Returns "The public bundle failed validation." world.bundle)
            (λ manifest valid. publish_as-IsOf artifact_type manifest valid))

  -- Where `publish` returns a result, the bundle was valid, and gh, asked for the pull requests of the
  -- bundle's branch, ended normally and listed first one with the URL, on github.com, and the number of
  -- the result; gh said of it that it is a draft, from that branch, against main. The result says the
  -- same, and names the downstream repository and the bundle's hash.
  pub publish-IsOf :
      (artifact_type : String) (result : PublishResult) (log : Log)
      → publish world artifact_type [] ≡ (ok result, log)
      → IsOf artifact_type result
  publish-IsOf artifact_type result log h =
      subst (Gives (IsOf artifact_type)) h ((publish-Returns artifact_type).gives [])

  -- When the artifact type or the bundle is refused, `publish` raises a publication error, and no
  -- command has run.
  pub publish-refused :
      (artifact_type : String) (e : BundleError)
      → ((is_valid_type artifact_type ≡ false) ⊎ (world.bundle ≡ err e))
      → (message : String) × (publish world artifact_type []
          ≡ (err (publication_error publication_validation_failed message), []))
  unfolding publish raise_when
  publish-refused artifact_type e (inl h) = ("The publication artifact type is invalid.", rw h refl)
  publish-refused artifact_type e (inr h) = elim (Bool-cases (is_valid_type artifact_type)) [
    | inr q ↦ ("The publication artifact type is invalid.", rw q refl)
    | inl q ↦ ("The public bundle failed validation.", rw (q, h) refl)
  ]
