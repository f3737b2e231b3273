-- ===== src/Storage/ReadModels/Latest.antt =====
-- What the reads give after a write.
use agentic_sec_blog_publish.Prelude.{
  ◌≡◌, ◌∙◌, refl, inl, inr, String, Bool, true, false, not, ◌||◌, ◌==◌, eq_iff, some, List, [], ◌∷◌,
  ◌++◌, any, any_witness, select, select-append, find, update_where, map-update_where, mem-All, All,
  All-imp, All-none, Option-cases, if◌then◌else◌, Result, ok, ◌>>◌, raise_if, raise_if_ok, then_ok,
  arith,
}
use agentic_sec_blog_publish.Models.Assertions.{Assertion}
use agentic_sec_blog_publish.Models.Changes.{ChangeReviewItem}
use agentic_sec_blog_publish.Models.Reports.{ContradictionResolution}
use agentic_sec_blog_publish.Storage.{
  Library, Ledger, AssertionLink, StorageError, duplicate_key, missing_reference, evidence_has,
  refers,
}
use agentic_sec_blog_publish.Storage.Reviews.{clashes, review_has, add_review}
use agentic_sec_blog_publish.Storage.Claims.{
  add_links, links_of, same_link, assertion_has, key_has, add_assertion, by_key, add_resolution,
  flag_has, mark_confirmed,
}
use agentic_sec_blog_publish.Storage.ReadModels.{conflicts, latest_reviews, succeeds}
use agentic_sec_blog_publish.Storage.Sound.{IsSound, ReviewSound, proposal, decision}

-- A resolution that is stored does not show in the conflicts that publication reads: they are as they
-- were, with the status that they had when they were flagged.
pub conflicts-add_resolution :
    (r : ContradictionResolution) (l l2 : Ledger)
    → add_resolution r l ≡ ok l2
    → conflicts l2 ≡ conflicts l
unfolding add_resolution conflicts
conflicts-add_resolution r l l2 h =
    let flags = update_where (flag_has r.conflict_id) mark_confirmed l.contradiction_flags in
    let same : flags ≡ l2.contradiction_flags = ground arith in
    rw (← same) (
      map-update_where (λ row. row.payload) (flag_has r.conflict_id) mark_confirmed
        l.contradiction_flags (λ row. refl))

links-assertions :
    (links : List AssertionLink) (l l2 : Ledger)
    → add_links links l ≡ ok l2
    → l.assertions ≡ l2.assertions
links-assertions [] l l2 h = ground arith
links-assertions (link ∷ links) l l2 h =
    let next : Ledger = record l { assertion_evidence = l.assertion_evidence ++ (link ∷ []) } in
    let known = raise_if (not (any (evidence_has link.evidence_id) l.evidence)) missing_reference in
    let a =
      then_ok (raise_if (any (same_link link) l.assertion_evidence) duplicate_key)
        (known >> add_links links next) l2 h in
    links-assertions links next l2 (then_ok known (add_links links next) l2 a.1).1

find_added :
    (key : String) (a : Assertion) (rows : List Assertion)
    → any (key_has a.assertion_key) rows ≡ false
    → find (key_has key) (rows ++ (a ∷ []))
      ≡ (if key_has key a then some a else find (key_has key) rows)
find_added key a [] h = refl
find_added key a (row ∷ rows) h = ground (
  arith,
  find_added key a rows,
  eq_iff row.assertion_key key,
  eq_iff row.assertion_key a.assertion_key,
  eq_iff a.assertion_key key,
)

-- Once an assertion is stored, its ontology key finds it, and every other key finds what it found before.
pub by_key-add_assertion :
    (a : Assertion) (l l2 : Ledger) (key : String)
    → add_assertion a l ≡ ok l2
    → by_key key l2 ≡ (if key_has key a then some a else by_key key l)
unfolding add_assertion by_key
by_key-add_assertion a l l2 key h =
    let next : Ledger = record l { assertions = l.assertions ++ (a ∷ []) } in
    let taken : Bool =
      any (assertion_has a.id) l.assertions || any (key_has a.assertion_key) l.assertions in
    let outer = then_ok (raise_if taken duplicate_key) (_ >> add_links (links_of a) next) l2 h in
    let inner = then_ok _ (add_links (links_of a) next) l2 outer.1 in
    let free = raise_if_ok taken duplicate_key outer.0 in
    rw (← links-assertions (links_of a) next l2 inner.1)
      (find_added key a l.assertions (ground arith))

-- Whether the review succeeds no stored one.
no_successor :
    (lib : Library) (reviews : List ChangeReviewItem) (r x : ChangeReviewItem)
    → All (λ row. clashes r row ≡ false) reviews
    → ReviewSound lib reviews x
    → succeeds r.id x ≡ false
no_successor lib reviews r x free (proposal none_before p) = rw none_before refl
no_successor lib reviews r x free (decision prior m e s d) =
    let apart = mem-All (λ row. clashes r row ≡ false) prior reviews free m in
    rw e (ground (arith, eq_iff prior.id r.id))

-- A stored review's prior is stored before it, so that it is another.
unsucceeded :
    (r : ChangeReviewItem) (reviews : List ChangeReviewItem)
    → refers review_has r.prior_review_id reviews ≡ true
    → All (λ row. clashes r row ≡ false) reviews
    → succeeds r.id r ≡ false
unsucceeded r reviews h free = elim (Option-cases r.prior_review_id) [
  | inl e ↦ rw e refl
  | inr (id, e) ↦
      let k : any (review_has id) reviews ≡ true = rw e at h in
      let w = any_witness (review_has id) reviews k in
      let apart = mem-All (λ row. clashes r row ≡ false) w.0 reviews free w.1 in
      rw e (ground (arith, w.2, eq_iff w.0.id id, eq_iff id r.id))
]

any_snoc :
    (p : ChangeReviewItem → Bool) (rows : List ChangeReviewItem) (r : ChangeReviewItem)
    → any p (rows ++ (r ∷ [])) ≡ (any p rows || p r)
any_snoc p [] r = ground arith
any_snoc p (x ∷ rows) r = ground (arith, any_snoc p rows r)

select_unsucceeded :
    (stored rows : List ChangeReviewItem) (r : ChangeReviewItem)
    → select (λ x. not (any (succeeds x.id) (stored ++ (r ∷ [])))) rows
      ≡ select (λ x. not (succeeds x.id r)) (select (λ x. not (any (succeeds x.id) stored)) rows)
select_unsucceeded stored [] r = refl
select_unsucceeded stored (x ∷ rows) r =
    ground (arith, any_snoc (succeeds x.id) stored r, select_unsucceeded stored rows r)

none_succeeds :
    (id : String) (rows : List ChangeReviewItem)
    → All (λ x. succeeds id x ≡ false) rows
    → any (succeeds id) rows ≡ false
none_succeeds id [] h = refl
none_succeeds id (x ∷ rows) h = ground (arith, none_succeeds id rows h.1, h.0)

known_prior :
    (lib : Library) (r : ChangeReviewItem) (l l2 : Ledger)
    → add_review lib r l ≡ ok l2
    → refers review_has r.prior_review_id l.reviews ≡ true
unfolding add_review
known_prior lib r l l2 h =
    let unknown : Bool =
      not (any (λ diff. diff.id == r.candidate_id) l.structured_diffs)
      || (not (any (λ id. id == r.methodology_version) l.methodology_versions)
          || not (refers review_has r.prior_review_id l.reviews)) in
    let stored : Result StorageError Ledger = ok (record l { reviews = l.reviews ++ (r ∷ []) }) in
    let last = raise_if unknown missing_reference >> stored in
    let clash = raise_if (any (clashes r) l.reviews) duplicate_key in
    let c = then_ok _ (clash >> last) l2 (then_ok _ (_ >> (clash >> last)) l2 h).1 in
    let d = then_ok (raise_if unknown missing_reference) stored l2 (then_ok clash last l2 c.1).1 in
    no_unknown (not (any (λ diff. diff.id == r.candidate_id) l.structured_diffs))
      (not (any (λ id. id == r.methodology_version) l.methodology_versions))
      (refers review_has r.prior_review_id l.reviews) (raise_if_ok unknown missing_reference d.0)
  where
    no_unknown : (a b c : Bool) → (a || (b || not c)) ≡ false → c ≡ true
    no_unknown a b c h = ground arith

-- Over a sound ledger, a review that is stored becomes the last of the latest reviews, in place of the
-- one that it names as its prior; the others stay, in their order.
pub latest_reviews-add_review :
    (lib : Library) (r : ChangeReviewItem) (l l2 : Ledger)
    → IsSound lib l
    → add_review lib r l ≡ ok l2
    → latest_reviews l2 ≡ select (λ x. not (succeeds x.id r)) (latest_reviews l) ++ (r ∷ [])
unfolding add_review latest_reviews
latest_reviews-add_review lib r l l2 sound h =
    let same : record l { reviews = l.reviews ++ (r ∷ []) } ≡ l2 = ground arith in
    let free = All-none (clashes r) l.reviews (ground arith) in
    let later =
      none_succeeds r.id l.reviews
        (All-imp l.reviews (λ x s. no_successor lib l.reviews r x free s) sound.reviews) in
    let itself : succeeds r.id r ≡ false =
      unsucceeded r l.reviews (known_prior lib r l l2 h) free in
    let last : any (succeeds r.id) (l.reviews ++ (r ∷ [])) ≡ false =
      ground (arith, any_snoc (succeeds r.id) l.reviews r) in
    rw (← same) (
      select-append (λ x. not (any (succeeds x.id) (l.reviews ++ (r ∷ [])))) l.reviews (r ∷ [])
      ∙ rw (select_unsucceeded l.reviews l.reviews r, last) refl)
