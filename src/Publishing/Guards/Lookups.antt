-- ===== src/Publishing/Guards/Lookups.antt =====
-- The lookups of `GitHubDraftPublisher` keep the log justified.
use agentic_sec_blog_publish.Prelude.{
  ℕ, ◌≡◌, refl, inl, inr, String, Bool, true, false, not, ◌==◌, ◌&&◌, leb, text_length, Option,
  none, some, List, [], ◌∷◌, length, eqb, Bool-cases, Result, ok, err, if◌then◌else◌,
}
use Prim.Native.String.{◌++◌ as append}
use agentic_sec_blog_publish.Jobs.Models.{github_auth_unavailable}
use agentic_sec_blog_publish.Publishing.{
  PublicationManifest, BundleError, PublishError, same_but_time, Rows, not_json, not_a_list, rows,
}
use agentic_sec_blog_publish.Publishing.Shell.{
  ls_remote, pr_list, Entry, Log, World, clone_url, Action, ◌>>◌, raise_when,
}
use agentic_sec_blog_publish.Publishing.Remote.{
  existing_pr, read_rows, is_result_branch, is_hash, branch_hash, zeros, build_result, hosted,
  result_of, is_our_draft, not_draft, remote_branch_exists, refusal, publication_artifact_hash,
  has_text,
}
use agentic_sec_blog_publish.Publishing.Draft.{
  caught_bundle, uncaught_bundle, remote_bundle, validate_remote_branch, only_publication,
}
use agentic_sec_blog_publish.Publishing.Guards.{
  succeeded, Holds, Spec, bind-Spec, run-Spec, keep-Spec, pure-Spec, then-Spec, check-Spec,
}

module _ (world : World) where
  pub raise_when-log :
      {A : Type 0} (b : Bool) (e : PublishError) (k : Action A) (log : Log)
      → (k log).1 ≡ log
      → ((raise_when b e >> k) log).1 ≡ log
  unfolding raise_when
  raise_when-log true e k log h = refl
  raise_when-log false e k log h = h

  pub build_result-log :
      (branch suffix url : String) (number : ℕ) (log : Log)
      → (build_result world branch suffix url number log).1 ≡ log
  build_result-log branch suffix url number log =
      elim (Bool-cases
        (is_result_branch branch && (is_hash (append zeros suffix) && leb 1 number))) [
          | inl e ↦ rw e refl
          | inr e ↦ rw e refl
        ]

  pub result_of-log :
      (branch : String) (url : Option String) (number : Option ℕ) (log : Log)
      → (result_of world branch url number log).1 ≡ log
  result_of-log branch none number log = refl
  result_of-log branch (some url) none log = refl
  result_of-log branch (some url) (some number) log =
      elim (Bool-cases (hosted world (world.url_host url))) [
        | inl e ↦ rw e (build_result-log branch (branch_hash branch) url number log)
        | inr e ↦ rw e refl
      ]

  pub read_rows-log :
      (branch : String) (found : Rows) (log : Log) → (read_rows world branch found log).1 ≡ log
  read_rows-log branch not_json log = refl
  read_rows-log branch not_a_list log = refl
  read_rows-log branch (rows []) log = refl
  read_rows-log branch (rows (none ∷ more)) log = refl
  read_rows-log branch (rows (some pr ∷ more)) log =
      raise_when-log (not (is_our_draft world branch pr)) (not_draft world) _ log (
        raise_when-log (not (eqb (text_length (branch_hash branch)) 16)) _ _ log
          (result_of-log branch pr.url pr.number log))

  pub existing_pr-Spec :
      (facts : List Entry) (branch : String)
      → Spec world (Holds world facts) (existing_pr world branch) (λ _. Holds world facts)
  unfolding existing_pr
  existing_pr-Spec facts branch =
      bind-Spec world (λ _. Holds world facts) _ _
        (keep-Spec world facts (pr_list branch) github_auth_unavailable
          "GitHub pull-request lookup failed." (λ log h. tt))
        (λ out.
          let found = world.loads (if out == "" then "[]" else out) in
          pure-Spec world facts (read_rows world branch found) (read_rows-log branch found))

  -- What the lookup of the branch printed is in the log.
  pub remote-Spec :
      (facts : List Entry) (branch : String)
      → Spec world (Holds world facts) (remote_branch_exists world branch) (λ b log.
        (out : String) × (has_text world out ≡ b)
        × Holds world (succeeded (ls_remote (clone_url world) branch) out ∷ facts) log)
  unfolding remote_branch_exists
  remote-Spec facts branch =
      let command = ls_remote (clone_url world) branch in
      bind-Spec world (λ out. Holds world (succeeded command out ∷ facts)) _ _
        (run-Spec world facts command github_auth_unavailable
          "The publication branch could not be inspected." (λ log h. tt))
        (λ out. record { ends = λ log h. (out, refl, h) })

  pub caught_bundle-log :
      (message : String) (found : Result BundleError PublicationManifest) (log : Log)
      → (caught_bundle world message found log).1 ≡ log
  caught_bundle-log message (ok manifest) log = refl
  caught_bundle-log message (err e) log = refl

  pub uncaught_bundle-log :
      (found : Result BundleError PublicationManifest) (log : Log)
      → (uncaught_bundle world found log).1 ≡ log
  uncaught_bundle-log (ok manifest) log = refl
  uncaught_bundle-log (err e) log = refl

  pub validate_remote_branch-Spec :
      (facts : List Entry) (branch hash : String) (manifest : PublicationManifest)
      → Spec world
          (Holds world facts)
          (validate_remote_branch world branch hash manifest)
          (λ _. Holds world facts)
  unfolding validate_remote_branch
  validate_remote_branch-Spec facts branch hash manifest =
      then-Spec world facts _ _ (keep-Spec world facts _ _ _ (λ log h. tt)) (λ _.
        then-Spec world facts _ _ (keep-Spec world facts _ _ _ (λ log h. tt)) (λ _.
          then-Spec world facts _ _ (keep-Spec world facts _ _ _ (λ log h. tt)) (λ changed.
            then-Spec world facts _ _
              (check-Spec world facts (not (only_publication world changed))
                (refusal "The existing publication branch changes files outside publication/."))
              (λ _.
                then-Spec world facts _ _
                  (pure-Spec world facts (remote_bundle world)
                    (λ log. caught_bundle-log _ (world.bundle_at (length log)) log))
                  (λ remote.
                    then-Spec world facts _ _
                      (check-Spec world facts (not (publication_artifact_hash world remote == hash))
                        (refusal
                          "The existing publication branch does not match the requested artifact."))
                      (λ _. check-Spec world facts (not (same_but_time remote manifest)) (
                        refusal
                          "The existing publication manifest does not match the requested artifact.")))))))
