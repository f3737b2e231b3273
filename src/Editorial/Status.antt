-- ===== src/Editorial/Status.antt =====
-- What the daily brief, the weekly pack and the claim checks say.
use agentic_sec_blog_publish.Prelude.{
  ℕ, String, ◌≡◌, refl, ◌∙◌, ◌↔◌, Bool, true, false, not, ◌&&◌, Option, List, [], ◌∷◌, map, arith,
  any, every, select, is_empty, is_some, is_member, All, if◌then◌else◌, map-map, All-map, All-every,
  map_id,
}
use agentic_sec_blog_publish.Models.Vocabulary.{
  DailyStatus, material_changes, no_reviewed_content, no_material_change,
  no_confirmed_material_change, review_pending,
}
use agentic_sec_blog_publish.Models.Evidence.{Evidence}
use agentic_sec_blog_publish.Models.Changes.{MaterialChange, StructuredDiff, ChangeReviewItem}
use agentic_sec_blog_publish.Models.Reports.{ClaimCheck}
use agentic_sec_blog_publish.Editorial.{
  completed_candidate_ids, daily_status, build_daily_brief, check_claim, verify_claims,
}

module _ {ℓ} {A : Type ℓ} where
  is_empty-select : (p : A → Bool) (xs : List A) → is_empty (select p xs) ≡ not (any p xs)
  is_empty-select p [] = refl
  is_empty-select p (x ∷ xs) = ground (arith, is_empty-select p xs)

  any-selected : (p q : A → Bool) (xs : List A) → any q (select p xs) ≡ any (λ x. p x && q x) xs
  any-selected p q [] = refl
  any-selected p q (x ∷ xs) = ground (arith, any-selected p q xs)

  every-select : (p : A → Bool) (xs : List A) → every p (select p xs) ≡ true
  every-select p [] = refl
  every-select p (x ∷ xs) = ground (arith, every-select p xs)

  any-and : (p q : A → Bool) (xs : List A) → any (λ x. p x && q x) xs ≡ true → any p xs ≡ true
  any-and p q [] h = h
  any-and p q (x ∷ xs) h = ground (arith, any-and p q xs)

-- A candidate survived the filters, and no completed review is about it.
abbrev pub is_unreviewed : List ChangeReviewItem → StructuredDiff → Bool
is_unreviewed reviews d =
    d.material_candidate && not (is_member d.id (completed_candidate_ids reviews))

abbrev choose : (confirmed_any survived waiting content : Bool) → DailyStatus
choose confirmed_any survived waiting content =
    if not (not confirmed_any)
    then material_changes
    else if not (not survived) && waiting
    then review_pending
    else if not (not survived)
    then no_confirmed_material_change
    else if not content
    then no_reviewed_content
    else no_material_change

decided :
    (confirmed_any survived waiting content : Bool)
    → (waiting ≡ true → survived ≡ true)
    → (status : DailyStatus) → status ≡ choose confirmed_any survived waiting content
    → ((status ≡ material_changes) ↔ (confirmed_any ≡ true))
      × ((status ≡ review_pending) ↔ ((confirmed_any ≡ false) × (waiting ≡ true)))
      × ((status ≡ no_material_change)
          ↔ ((confirmed_any ≡ false) × (survived ≡ false) × (content ≡ true)))
decided a b p c h status e = ground arith

-- The brief's status is MATERIAL_CHANGES exactly when a human confirmed a change; REVIEW_PENDING
-- exactly when none is confirmed and a surviving candidate has no completed review; and
-- NO_MATERIAL_CHANGE exactly when none is confirmed, no candidate survived, and there was reviewed
-- content.
pub build_daily_brief-status :
    (isoformat : ℕ → String) (day : ℕ) (changes : List MaterialChange)
    (candidates : List StructuredDiff) (reviews : List ChangeReviewItem) (content : Bool)
    → let status = (build_daily_brief isoformat day changes candidates reviews content).status in
      let confirmed_any = any (λ (c : MaterialChange). c.human_confirmed) changes in
      ((status ≡ material_changes) ↔ (confirmed_any ≡ true))
      × ((status ≡ review_pending)
          ↔ ((confirmed_any ≡ false) × (any (is_unreviewed reviews) candidates ≡ true)))
      × ((status ≡ no_material_change) ↔ (
          (confirmed_any ≡ false)
          × (any (λ (d : StructuredDiff). d.material_candidate) candidates ≡ false)
          × (content ≡ true)))
unfolding build_daily_brief daily_status
build_daily_brief-status isoformat day changes candidates reviews content =
    decided (any (λ c. c.human_confirmed) changes) (any (λ d. d.material_candidate) candidates)
      (any (is_unreviewed reviews) candidates) content
      (any-and (λ (d : StructuredDiff). d.material_candidate)
        (λ d. not (is_member d.id (completed_candidate_ids reviews))) candidates)
      (daily_status changes candidates reviews content)
      (rw
        (
          daily_status,
          is_empty-select (λ (c : MaterialChange). c.human_confirmed) changes,
          is_empty-select (λ (d : StructuredDiff). d.material_candidate) candidates,
          any-selected (λ (d : StructuredDiff). d.material_candidate)
              (λ d. not (is_member d.id (completed_candidate_ids reviews))) candidates,
        )
        refl)

-- `verify_claims` gives one check for each claim, in order; a check names only evidence that is
-- known, and says supported exactly when some evidence listed for its claim is known.
pub verify_claims-Checks :
    (evidence_ids_by_claim : String → List String) (evidence_by_id : String → Option Evidence)
    (claims : List String)
    → let checks = verify_claims evidence_ids_by_claim evidence_by_id claims in
      (map (λ (c : ClaimCheck). c.claim) checks ≡ claims)
      × All
          (λ (c : ClaimCheck).
            (every (λ id. is_some (evidence_by_id id)) c.evidence_ids ≡ true)
            × (c.supported
                ≡ any (λ id. is_some (evidence_by_id id)) (evidence_ids_by_claim c.claim)))
          checks
unfolding verify_claims
verify_claims-Checks by_claim by_id claims = (
  map-map (λ (c : ClaimCheck). c.claim) (check_claim by_claim by_id) claims ∙ map_id claims,
  All-map _ (check_claim by_claim by_id) claims (
      All-every claims (λ claim. (
        every-select (λ id. is_some (by_id id)) (by_claim claim),
        ground (arith, is_empty-select (λ id. is_some (by_id id)) (by_claim claim)),
      ))),
)
