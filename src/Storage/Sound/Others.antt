-- ===== src/Storage/Sound/Others.antt =====
-- The repositories that leave what `IsSound` looks at alone.
use agentic_sec_blog_publish.Prelude.{
  ◌≡◌, ◌∙◌, refl, subst, any, not, List, [], ◌∷◌, ◌++◌, ok, ◌>>◌, raise_if, then_ok, arith,
  update_where,
}
use agentic_sec_blog_publish.Models.Assertions.{Assertion, Observation}
use agentic_sec_blog_publish.Models.Changes.{StructuredDiff}
use agentic_sec_blog_publish.Models.Reports.{ContradictionFlag, ContradictionResolution}
use agentic_sec_blog_publish.Storage.{
  Library, Ledger, AssertionLink, FlagRow, history, duplicate_key, missing_reference, evidence_has,
}
use agentic_sec_blog_publish.Storage.Claims.{
  add_links, links_of, add_assertion, add_observation, add_diff, add_conflict, add_resolution,
  same_link, flag_has, mark_confirmed,
}
use agentic_sec_blog_publish.Storage.Sound.{IsSound}

module _ (lib : Library) where
  -- The tables that `IsSound` looks at are the same.
  record SameCore (l l2 : Ledger) : Type 0 where
    snapshots : l.snapshots ≡ l2.snapshots
    evidence : l.evidence ≡ l2.evidence
    reviews : l.reviews ≡ l2.reviews
    confirmed_changes : l.confirmed_changes ≡ l2.confirmed_changes
    lifecycle_events : l.lifecycle_events ≡ l2.lifecycle_events

  same-IsSound : (l l2 : Ledger) → SameCore l l2 → IsSound lib l → IsSound lib l2
  unfolding history
  same-IsSound l l2 s k = record {
    evidence = rw (← s.snapshots, ← s.evidence) k.evidence;
    reviews = rw (← s.reviews) k.reviews;
    reviewed_in_order = rw (← s.reviews) k.reviewed_in_order;
    changes = rw (← s.reviews, ← s.confirmed_changes) k.changes;
    histories = rw (← s.lifecycle_events) k.histories;
  }

  then_same : (l m n : Ledger) → SameCore l m → SameCore m n → SameCore l n
  then_same l m n a b = record {
    snapshots = a.snapshots ∙ b.snapshots;
    evidence = a.evidence ∙ b.evidence;
    reviews = a.reviews ∙ b.reviews;
    confirmed_changes = a.confirmed_changes ∙ b.confirmed_changes;
    lifecycle_events = a.lifecycle_events ∙ b.lifecycle_events;
  }

  -- Every other table may differ.
  same_but :
      (l : Ledger) (assertions : List Assertion) (links : List AssertionLink)
      (observations : List Observation) (diffs : List StructuredDiff) (flags : List FlagRow)
      (resolutions : List ContradictionResolution)
      → SameCore l (record l {
        assertions = assertions;
        assertion_evidence = links;
        observations = observations;
        structured_diffs = diffs;
        contradiction_flags = flags;
        contradiction_resolutions = resolutions;
      })
  same_but l assertions links observations diffs flags resolutions = record {
    snapshots = refl;
    evidence = refl;
    reviews = refl;
    confirmed_changes = refl;
    lifecycle_events = refl;
  }

  add_links-SameCore :
      (links : List AssertionLink) (l l2 : Ledger) → add_links links l ≡ ok l2 → SameCore l l2
  add_links-SameCore [] l l2 h =
      let same : l ≡ l2 = ground arith in
      subst (SameCore l) same (
        same_but l l.assertions l.assertion_evidence l.observations l.structured_diffs
          l.contradiction_flags l.contradiction_resolutions)
  add_links-SameCore (link ∷ links) l l2 h =
      let more = l.assertion_evidence ++ (link ∷ []) in
      let next : Ledger = record l { assertion_evidence = more } in
      let known =
        raise_if (not (any (evidence_has link.evidence_id) l.evidence)) missing_reference in
      let a =
        then_ok (raise_if (any (same_link link) l.assertion_evidence) duplicate_key)
          (known >> add_links links next) l2 h in
      let b = then_ok known (add_links links next) l2 a.1 in
      then_same l next l2
        (same_but l l.assertions more l.observations l.structured_diffs l.contradiction_flags
          l.contradiction_resolutions)
        (add_links-SameCore links next l2 b.1)

  pub add_assertion-IsSound :
      (a : Assertion) (l l2 : Ledger) → add_assertion a l ≡ ok l2 → IsSound lib l → IsSound lib l2
  unfolding add_assertion
  add_assertion-IsSound a l l2 h k =
      let more = l.assertions ++ (a ∷ []) in
      let next : Ledger = record l { assertions = more } in
      let added : add_links (links_of a) next ≡ ok l2 =
        (then_ok _ (add_links (links_of a) next) l2
          (then_ok _ (_ >> add_links (links_of a) next) l2 h).1).1 in
      same-IsSound l l2
        (then_same l next l2
          (same_but l more l.assertion_evidence l.observations l.structured_diffs
            l.contradiction_flags l.contradiction_resolutions)
          (add_links-SameCore (links_of a) next l2 added))
        k

  pub add_observation-IsSound :
      (o : Observation) (l l2 : Ledger)
      → add_observation o l ≡ ok l2
      → IsSound lib l
      → IsSound lib l2
  unfolding add_observation
  add_observation-IsSound o l l2 h k =
      let same : record l { observations = l.observations ++ (o ∷ []) } ≡ l2 = ground arith in
      same-IsSound l l2
        (subst (SameCore l) same (
          same_but l l.assertions l.assertion_evidence (l.observations ++ (o ∷ []))
            l.structured_diffs l.contradiction_flags l.contradiction_resolutions))
        k

  pub add_diff-IsSound :
      (d : StructuredDiff) (l l2 : Ledger) → add_diff d l ≡ ok l2 → IsSound lib l → IsSound lib l2
  unfolding add_diff
  add_diff-IsSound d l l2 h k =
      let same : record l { structured_diffs = l.structured_diffs ++ (d ∷ []) } ≡ l2 =
        ground arith in
      same-IsSound l l2
        (subst (SameCore l) same (
          same_but l l.assertions l.assertion_evidence l.observations
            (l.structured_diffs ++ (d ∷ [])) l.contradiction_flags l.contradiction_resolutions))
        k

  pub add_conflict-IsSound :
      (c : ContradictionFlag) (l l2 : Ledger)
      → add_conflict c l ≡ ok l2
      → IsSound lib l
      → IsSound lib l2
  unfolding add_conflict
  add_conflict-IsSound c l l2 h k =
      let flags = l.contradiction_flags ++ (record { status = c.status; payload = c } ∷ []) in
      let same : record l { contradiction_flags = flags } ≡ l2 = ground arith in
      same-IsSound l l2
        (subst (SameCore l) same (
          same_but l l.assertions l.assertion_evidence l.observations l.structured_diffs flags
            l.contradiction_resolutions))
        k

  pub add_resolution-IsSound :
      (r : ContradictionResolution) (l l2 : Ledger)
      → add_resolution r l ≡ ok l2
      → IsSound lib l
      → IsSound lib l2
  unfolding add_resolution
  add_resolution-IsSound r l l2 h k =
      let flags = update_where (flag_has r.conflict_id) mark_confirmed l.contradiction_flags in
      let resolutions = l.contradiction_resolutions ++ (r ∷ []) in
      let same : record l { contradiction_flags = flags; contradiction_resolutions = resolutions }
          ≡ l2 =
        ground arith in
      same-IsSound l l2
        (subst (SameCore l) same (
          same_but l l.assertions l.assertion_evidence l.observations l.structured_diffs flags
            resolutions))
        k
