-- ===== src/Storage/Runs.antt =====
-- The ledger under any sequence of the repositories' operations, each in a transaction of its own: an
-- operation that raises leaves the ledger as it was.
use agentic_sec_blog_publish.Prelude.{
  ◌≡◌, refl, sym, subst, ap, ◌∙◌, ◌&&◌, inl, inr, String, true, eq_iff, Option, none, some, List,
  [], ◌∷◌, ◌++◌, every, find, find_sat, find-Memᴰ, any_witness, Option-cases, Result-cases, Result,
  ok, err, arith,
}
use agentic_sec_blog_publish.Models.Vocabulary.{pending}
use agentic_sec_blog_publish.Models.Sources.{Source, Snapshot}
use agentic_sec_blog_publish.Models.Evidence.{Evidence}
use agentic_sec_blog_publish.Models.Assertions.{LifecycleEvent, Assertion, Observation}
use agentic_sec_blog_publish.Models.Reports.{ContradictionFlag, ContradictionResolution}
use agentic_sec_blog_publish.Models.Changes.{
  MaterialChange, ChangeReviewItem, StructuredDiff, decision_fields,
}
use agentic_sec_blog_publish.Storage.{
  Library, Ledger, ConfirmedChange, StorageError, add_source, sync, add_snapshot, add_evidence,
  append_lifecycle,
}
use agentic_sec_blog_publish.Storage.Reviews.{
  review_has, same_proposal, preserves_proposal, passes_checks, add_review, add_confirmed_change,
}
use agentic_sec_blog_publish.Storage.Sound.{
  ReviewSound, proposal, decision, IsSound, with_review, with_change,
}
use agentic_sec_blog_publish.Storage.Claims.{
  add_assertion, add_observation, add_diff, add_conflict, add_resolution,
}
use agentic_sec_blog_publish.Storage.Sound.Others.{
  add_assertion-IsSound, add_observation-IsSound, add_diff-IsSound, add_conflict-IsSound,
  add_resolution-IsSound,
}
use agentic_sec_blog_publish.Storage.Operations.{
  add_source-IsSound, sync-IsSound, add_snapshot-IsSound, add_evidence-IsSound,
  append_lifecycle-IsSound,
}

pub data Operation : Type 0 where
  adds_source syncs_source : Source → Operation
  adds_snapshot : Snapshot → Operation
  adds_evidence : Evidence → Operation
  appends_event : LifecycleEvent → Operation
  adds_review : ChangeReviewItem → Operation
  adds_change : MaterialChange → (review_id : String) → Operation
  adds_assertion : Assertion → Operation
  adds_observation : Observation → Operation
  adds_diff : StructuredDiff → Operation
  adds_conflict : ContradictionFlag → Operation
  adds_resolution : ContradictionResolution → Operation

module _ (lib : Library) where
  unfoldable pub perform : Operation → Ledger → Result StorageError Ledger
  perform (adds_source s) l = add_source s l
  perform (syncs_source s) l = sync s l
  perform (adds_snapshot s) l = add_snapshot s l
  perform (adds_evidence e) l = add_evidence lib e l
  perform (appends_event e) l = append_lifecycle e l
  perform (adds_review r) l = add_review lib r l
  perform (adds_change c id) l = add_confirmed_change c id l
  perform (adds_assertion a) l = add_assertion a l
  perform (adds_observation o) l = add_observation o l
  perform (adds_diff d) l = add_diff d l
  perform (adds_conflict c) l = add_conflict c l
  perform (adds_resolution r) l = add_resolution r l

  abbrev pub committed : Ledger → Result StorageError Ledger → Ledger
  committed l (ok after) = after
  committed l (err e) = l

  unfoldable pub run_ledger : List Operation → Ledger → Ledger
  unfolding perform
  run_ledger [] l = l
  run_ledger (o ∷ os) l = run_ledger os (committed l (perform o l))

  passes_checks-proposal :
      (r : ChangeReviewItem)
      → passes_checks r ≡ true
      → r.prior_review_id ≡ none
      → r.status ≡ pending
  unfolding passes_checks
  passes_checks-proposal r h e = ground (arith, h, e)

  passes_checks-decision :
      (r : ChangeReviewItem) (id : String)
      → passes_checks r ≡ true
      → r.prior_review_id ≡ some id
      → every (λ given. given) (decision_fields r) ≡ true
  unfolding passes_checks
  passes_checks-decision r id h e = ground (arith, h, e)

  accepted-ReviewSound :
      (r : ChangeReviewItem) (rs : List ChangeReviewItem) (prior : Option String)
      → passes_checks r ≡ true
      → preserves_proposal lib rs r prior ≡ true
      → r.prior_review_id ≡ prior
      → ReviewSound lib rs r
  unfolding preserves_proposal
  accepted-ReviewSound r rs none p h e = proposal e (passes_checks-proposal r p e)
  accepted-ReviewSound r rs (some id) p h e =
      let w = any_witness (λ row. review_has id row && same_proposal lib row r) rs h in
      let same_id : w.0.id ≡ id = ground (arith, w.2, eq_iff w.0.id id) in
      decision w.0 w.1 (e ∙ ap (λ i. some i) (sym same_id)) (ground (arith, w.2))
        (passes_checks-decision r id p e)

  add_review-IsSound :
      (r : ChangeReviewItem) (l l2 : Ledger)
      → add_review lib r l ≡ ok l2
      → IsSound lib l
      → IsSound lib l2
  unfolding add_review
  add_review-IsSound r l l2 h k =
      let same : record l { reviews = l.reviews ++ (r ∷ []) } ≡ l2 = ground arith in
      subst (IsSound lib) same (
        with_review lib l r
          (accepted-ReviewSound r l.reviews r.prior_review_id (ground arith) (ground arith) refl) k)

  add_confirmed_change-IsSound :
      (c : MaterialChange) (id : String) (l l2 : Ledger)
      → add_confirmed_change c id l ≡ ok l2
      → IsSound lib l
      → IsSound lib l2
  unfolding add_confirmed_change
  add_confirmed_change-IsSound c id l l2 h k =
      elim (Option-cases (find (review_has id) l.reviews)) [
        | inl e ↦ absurd (let j = rw e at h in ground arith)
        | inr (r, e) ↦
            let j = rw e at h in
            let row : ConfirmedChange = record { change = c; review_id = id } in
            let same : record l { confirmed_changes = l.confirmed_changes ++ (row ∷ []) } ≡ l2 =
              ground arith in
            subst (IsSound lib) same (
              with_change lib l row
                (record {
                  review = r;
                  stored = find-Memᴰ (review_has id) l.reviews r e;
                  has_id = ground (arith, eq_iff r.id id, find_sat (review_has id) l.reviews e);
                  is_confirmed = ground arith;
                  by_human = ground arith;
                })
                k)
      ]

  perform-IsSound :
      (o : Operation) (l l2 : Ledger) → perform o l ≡ ok l2 → IsSound lib l → IsSound lib l2
  unfolding perform
  perform-IsSound (adds_source s) l l2 h k = add_source-IsSound lib s l l2 h k
  perform-IsSound (syncs_source s) l l2 h k = sync-IsSound lib s l l2 h k
  perform-IsSound (adds_snapshot s) l l2 h k = add_snapshot-IsSound lib s l l2 h k
  perform-IsSound (adds_evidence e) l l2 h k = add_evidence-IsSound lib e l l2 h k
  perform-IsSound (appends_event e) l l2 h k = append_lifecycle-IsSound lib e l l2 h k
  perform-IsSound (adds_review r) l l2 h k = add_review-IsSound r l l2 h k
  perform-IsSound (adds_change c id) l l2 h k = add_confirmed_change-IsSound c id l l2 h k
  perform-IsSound (adds_assertion a) l l2 h k = add_assertion-IsSound lib a l l2 h k
  perform-IsSound (adds_observation o) l l2 h k = add_observation-IsSound lib o l l2 h k
  perform-IsSound (adds_diff d) l l2 h k = add_diff-IsSound lib d l l2 h k
  perform-IsSound (adds_conflict c) l l2 h k = add_conflict-IsSound lib c l l2 h k
  perform-IsSound (adds_resolution r) l l2 h k = add_resolution-IsSound lib r l l2 h k

  -- Whatever is written to a sound ledger, in whatever order, and whether it is accepted or refused:
  -- all stored evidence quotes a stored snapshot of its source and is within the limits of its class,
  -- every decided review is a complete human decision on an earlier row with the same proposal of the
  -- machine, every confirmed change has a confirmed review, and every entity's lifecycle is a chain of
  -- allowed transitions.
  pub run_ledger-IsSound :
      (os : List Operation) (l : Ledger) → IsSound lib l → IsSound lib (run_ledger os l)
  unfolding run_ledger
  run_ledger-IsSound [] l h = h
  run_ledger-IsSound (o ∷ os) l h = elim (Result-cases (perform o l)) [
    | inl (l2, e) ↦ rw e (run_ledger-IsSound os l2 (perform-IsSound o l l2 e h))
    | inr (x, e) ↦ rw e (run_ledger-IsSound os l h)
  ]
