-- ===== src/Publishing/Guards/Pushes.antt =====
-- What `publish` has made sure of before it pushes.
use agentic_sec_blog_publish.Prelude.{
  ◌≡◌, inl, inr, String, Bool, true, false, not, Option, none, some, List, [], ◌∷◌, length,
  Bool-cases, Result, ok, err,
}
use agentic_sec_blog_publish.Jobs.Models.{github_auth_unavailable}
use agentic_sec_blog_publish.Publishing.{PublicationManifest, PublishError, PublishResult}
use agentic_sec_blog_publish.Publishing.Shell.{
  push, pr_create, diff_staged, ls_remote, Entry, Log, World, clone_url, raise_when,
}
use agentic_sec_blog_publish.Publishing.Remote.{
  existing_pr, is_valid_type, branch_of, refusal, publication_artifact_hash, has_text,
}
use agentic_sec_blog_publish.Publishing.Draft.{
  caught_bundle, copied_bundle, or_unverified, or_reraise, after_create, create_and_verify_pr,
  publish_to, publish_as, stage, push_staged, publish_new, publish, is_publishable,
}
use agentic_sec_blog_publish.Publishing.Guards.{
  succeeded, IsGuarded, Holds, Ends, Spec, bind-Spec, run-Spec, keep-Spec, pure-Spec, then-Spec,
  check-Spec, return-Spec, raise-Spec,
}
use agentic_sec_blog_publish.Publishing.Guards.Lookups.{
  existing_pr-Spec, remote-Spec, caught_bundle-log, uncaught_bundle-log,
  validate_remote_branch-Spec,
}

module _ (world : World) where
  -- An action that ends a call: only the log counts.
  weaken : (facts : List Entry) (log : Log) → Holds world facts log → Holds world [] log
  weaken facts log h = (h.0, tt)

  or_unverified-Spec :
      (hash : String) (duplicate : Bool) (found : Option PublishResult)
      → Spec world (Holds world []) (or_unverified world hash duplicate found) (λ _. Holds world [])
  or_unverified-Spec hash duplicate none = raise-Spec world [] _
  or_unverified-Spec hash duplicate (some created) = return-Spec world [] _

  or_reraise-Spec :
      (e : PublishError) (hash : String) (found : Option PublishResult)
      → Spec world (Holds world []) (or_reraise world e hash found) (λ _. Holds world [])
  or_reraise-Spec e hash none = raise-Spec world [] _
  or_reraise-Spec e hash (some raced) = return-Spec world [] _

  after_create-Ends :
      (branch hash : String) (duplicate : Bool) (r : Result PublishError String × Log)
      → Ends world (λ _. Holds world []) r
      → Ends world (λ _. Holds world []) (after_create world branch hash duplicate r)
  after_create-Ends branch hash duplicate (ok out, log) h =
      (then-Spec world [] (existing_pr world branch) (or_unverified world hash duplicate)
          (existing_pr-Spec world [] branch) (or_unverified-Spec hash duplicate)).ends
        log h
  after_create-Ends branch hash duplicate (err e, log) h =
      (then-Spec world [] (existing_pr world branch) (or_reraise world e hash)
          (existing_pr-Spec world [] branch) (or_reraise-Spec e hash)).ends
        log (h, tt)

  create_and_verify_pr-Spec :
      (branch hash : String) (duplicate : Bool)
      → Spec world
          (Holds world [])
          (create_and_verify_pr world branch hash duplicate)
          (λ _. Holds world [])
  unfolding create_and_verify_pr
  create_and_verify_pr-Spec branch hash duplicate = record {
    ends = λ log h. after_create-Ends branch hash duplicate _ (
        (keep-Spec world [] (pr_create branch) github_auth_unavailable
            "The draft publication pull request could not be created." (λ l k. tt)).ends
          log h);
  }

  listed-Spec :
      (facts : List Entry) (staged : String) (e : PublishError)
      → Spec world
          (Holds world (succeeded diff_staged staged ∷ facts))
          (raise_when (not (is_publishable world staged)) e)
          (λ _ log.
            (out : String) × (is_publishable world out ≡ true)
            × Holds world (succeeded diff_staged out ∷ facts) log)
  unfolding raise_when
  listed-Spec facts staged e = elim (Bool-cases (is_publishable world staged)) [
    | inl q ↦ record { ends = λ log h. simp q (staged, q, h) }
    | inr q ↦ record { ends = λ log h. simp q h.0 }
  ]

  -- What was staged was listed, and passed.
  stage-Spec :
      (facts : List Entry) (branch : String)
      → Spec world (Holds world facts) (stage world branch) (λ _ log.
        (staged : String) × (is_publishable world staged ≡ true)
        × Holds world (succeeded diff_staged staged ∷ facts) log)
  unfolding stage
  stage-Spec facts branch =
      then-Spec world facts _ _ (keep-Spec world facts _ _ _ (λ log h. tt)) (λ _.
        then-Spec world facts _ _ (keep-Spec world facts _ _ _ (λ log h. tt)) (λ _.
          then-Spec world facts _ _
            (pure-Spec world facts (copied_bundle world)
              (λ log. uncaught_bundle-log world (world.bundle_at (length log)) log))
            (λ _. then-Spec world facts _ _ (keep-Spec world facts _ _ _ (λ log h. tt)) (λ _.
              then-Spec world facts _ _ (keep-Spec world facts _ _ _ (λ log h. tt)) (λ _.
                then-Spec world facts _ _ (keep-Spec world facts _ _ _ (λ log h. tt)) (λ _.
                  bind-Spec world (λ out. Holds world (succeeded diff_staged out ∷ facts)) _ _
                    (run-Spec world facts diff_staged _ _ (λ log h. tt))
                    (λ staged. listed-Spec facts staged _)))))))

  -- What is in the log when the push comes.
  abbrev before_push : (branch looked staged : String) → List Entry
  before_push branch looked staged =
      succeeded diff_staged staged ∷ succeeded (ls_remote (clone_url world) branch) looked ∷ []

  push_staged-Spec :
      (branch hash looked staged : String)
      → has_text world looked ≡ false
      → is_publishable world staged ≡ true
      → Spec world
          (Holds world (before_push branch looked staged))
          (push_staged world branch hash)
          (λ _. Holds world (before_push branch looked staged))
  unfolding push_staged
  push_staged-Spec branch hash looked staged absent publishable =
      let facts = before_push branch looked staged in
      then-Spec world facts _ _ (keep-Spec world facts _ _ _ (λ log h. tt)) (λ _.
        then-Spec world facts _ _
          (keep-Spec world facts (push branch) _ _ (λ log h. record {
            looked = looked;
            absent = absent;
            asked = h.1.1.0;
            staged = staged;
            publishable = publishable;
            listed = h.1.0;
          }))
          (λ _. then-Spec world facts _ _ (keep-Spec world facts _ _ _ (λ log h. tt)) (λ verified.
            check-Spec world facts (not (has_text world verified))
              (refusal "The pushed publication branch was not found."))))

  publish_new-Spec :
      (branch hash looked : String)
      → has_text world looked ≡ false
      → Spec world
          (Holds world (succeeded (ls_remote (clone_url world) branch) looked ∷ []))
          (publish_new world branch hash)
          (λ _. Holds world [])
  publish_new-Spec branch hash looked absent =
      bind-Spec world _ _ _
        (stage-Spec (succeeded (ls_remote (clone_url world) branch) looked ∷ []) branch)
        (λ _. record {
          ends = λ log h.
              (bind-Spec world (λ _. Holds world (before_push branch looked h.0)) _ _
                  (push_staged-Spec branch hash looked h.0 absent h.1)
                  (λ _. record {
                    ends = λ after k.
                        (create_and_verify_pr-Spec branch hash false).ends after (k.0, tt);
                  })).ends
                log h.2;
        })

  publish_to-Spec :
      (branch hash : String) (manifest : PublicationManifest) (existing : Option PublishResult)
      (exists : Bool) (looked : String)
      → has_text world looked ≡ exists
      → Spec world
          (Holds world (succeeded (ls_remote (clone_url world) branch) looked ∷ []))
          (publish_to world branch hash manifest existing exists)
          (λ _. Holds world [])
  publish_to-Spec branch hash manifest (some existing) false looked h = record {
    ends = λ log k. k.0;
  }
  publish_to-Spec branch hash manifest (some existing) true looked h =
      bind-Spec world (λ _. Holds world []) _ _
        (record {
          ends = λ log k.
              (validate_remote_branch-Spec world [] branch hash manifest).ends log (k.0, tt);
        })
        (λ _. return-Spec world [] _)
  publish_to-Spec branch hash manifest none true looked h =
      bind-Spec world (λ _. Holds world []) _ _
        (record {
          ends = λ log k.
              (validate_remote_branch-Spec world [] branch hash manifest).ends log (k.0, tt);
        })
        (λ _. create_and_verify_pr-Spec branch hash true)
  publish_to-Spec branch hash manifest none false looked h = publish_new-Spec branch hash looked h

  publish_as-Spec :
      (branch hash : String) (manifest : PublicationManifest)
      → Spec world (Holds world []) (publish_as world branch hash manifest) (λ _. Holds world [])
  publish_as-Spec branch hash manifest =
      then-Spec world [] _ _ (keep-Spec world [] _ _ _ (λ log h. tt)) (λ _.
        then-Spec world [] _ _ (existing_pr-Spec world [] branch) (λ existing.
          bind-Spec world _ _ _ (remote-Spec world [] branch) (λ exists. record {
            ends = λ log h.
                (publish_to-Spec branch hash manifest existing exists h.0 h.1).ends log h.2;
          })))

  publish-Spec :
      (artifact_type : String)
      → Spec world (Holds world []) (publish world artifact_type) (λ _. Holds world [])
  unfolding publish
  publish-Spec artifact_type =
      then-Spec world [] _ _
        (check-Spec world [] (not (is_valid_type artifact_type))
          (refusal "The publication artifact type is invalid."))
        (λ _.
          then-Spec world [] _ _
            (pure-Spec world []
              (caught_bundle world "The public bundle failed validation." world.bundle)
              (caught_bundle-log world "The public bundle failed validation." world.bundle))
            (λ manifest.
              publish_as-Spec
                (branch_of world artifact_type (publication_artifact_hash world manifest))
                (publication_artifact_hash world manifest) manifest))

  IsGuarded-result :
      {A : Type 0} (r : Result PublishError A × Log)
      → Ends world (λ _. Holds world []) r
      → IsGuarded world r.1
  IsGuarded-result (ok a, log) h = h.0
  IsGuarded-result (err e, log) h = h

  -- Whatever the other programs answer, and whether `publish` returns or raises: before each push that it
  -- makes, it had asked the downstream repository for the branch and was shown none, and had listed what
  -- is staged and found some path, all of them below publication/ and none a database.
  pub publish-IsGuarded :
      (artifact_type : String) → IsGuarded world (publish world artifact_type []).1
  publish-IsGuarded artifact_type =
      IsGuarded-result (publish world artifact_type [])
        ((publish-Spec artifact_type).ends [] (tt, tt))
