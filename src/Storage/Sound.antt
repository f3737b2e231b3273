-- ===== src/Storage/Sound.antt =====
-- What every row of the ledger rests on, whatever was written before it.
pub mod Others
use agentic_sec_blog_publish.Prelude.{
  ◌≡◌, sym, subst, append-nil, append_assoc, String, true, eq_iff, none, some, List, [], ◌∷◌, ◌++◌,
  Memᴰ, every, All, All-imp, All-snoc, Memᴰ-snoc, ok, arith,
}
use agentic_sec_blog_publish.Models.Vocabulary.{pending, confirmed}
use agentic_sec_blog_publish.Models.Sources.{Source, Snapshot}
use agentic_sec_blog_publish.Models.Evidence.{Evidence}
use agentic_sec_blog_publish.Models.Changes.{ChangeReviewItem, decision_fields}
use agentic_sec_blog_publish.Evidence.Anchors.{Resolves, validate_evidence_anchor-Resolves}
use agentic_sec_blog_publish.Evidence.Limits.{WithinLimits, validate_evidence_classification_iff}
use agentic_sec_blog_publish.Lifecycle.Chain.{IsChain}
use agentic_sec_blog_publish.Storage.{Library, Ledger, ConfirmedChange, check_evidence, history}
use agentic_sec_blog_publish.Storage.Reviews.{same_proposal}

module _ (lib : Library) where
  -- Evidence stays bound to a stored snapshot of its source, which its anchor quotes.
  pub record EvidenceSound (snapshots : List Snapshot) (e : Evidence) : Type 0 where
    pub snapshot : Snapshot
    pub stored : Memᴰ snapshot snapshots
    pub same_source : e.source_id ≡ snapshot.source_id
    pub resolves : Resolves lib.hexdigest lib.splitlines e.anchor snapshot
    pub limits : WithinLimits e

  -- A review is the machine's proposal, or a complete human decision on a stored row with the same
  -- proposal.
  pub data ReviewSound (reviews : List ChangeReviewItem) (r : ChangeReviewItem) : Type 0 where
    proposal : r.prior_review_id ≡ none → r.status ≡ pending → ReviewSound reviews r
    decision :
        (prior : ChangeReviewItem)
        → Memᴰ prior reviews
        → r.prior_review_id ≡ some prior.id
        → same_proposal lib prior r ≡ true
        → every (λ given. given) (decision_fields r) ≡ true
        → ReviewSound reviews r

  -- Each review stands on those that were stored before it.
  abbrev pub InOrder : (earlier later : List ChangeReviewItem) → Type 0
  InOrder earlier [] = Unit
  InOrder earlier (r ∷ later) = ReviewSound earlier r × InOrder (earlier ++ (r ∷ [])) later

  InOrder-snoc :
      (earlier later : List ChangeReviewItem) (r : ChangeReviewItem)
      → InOrder earlier later
      → ReviewSound (earlier ++ later) r
      → InOrder earlier (later ++ (r ∷ []))
  InOrder-snoc earlier [] r h k = (subst (λ rs. ReviewSound rs r) (append-nil earlier) k, tt)
  InOrder-snoc earlier (x ∷ later) r h k = (
    h.0,
    InOrder-snoc (earlier ++ (x ∷ [])) later r h.1
        (subst (λ rs. ReviewSound rs r) (sym (append_assoc earlier (x ∷ []) later)) k),
  )

  pub record ChangeSound (reviews : List ChangeReviewItem) (row : ConfirmedChange) : Type 0 where
    pub review : ChangeReviewItem
    pub stored : Memᴰ review reviews
    pub has_id : review.id ≡ row.review_id
    pub is_confirmed : review.status ≡ confirmed
    pub by_human : (row.change).human_confirmed ≡ true

  pub record IsSound (l : Ledger) : Type 0 where
    pub evidence : All (EvidenceSound l.snapshots) l.evidence
    pub reviews : All (ReviewSound l.reviews) l.reviews
    pub reviewed_in_order : InOrder [] l.reviews
    pub changes : All (ChangeSound l.reviews) l.confirmed_changes
    pub histories : (type id : String) → IsChain (history type id l)

  pub check_evidence-Sound :
      (e : Evidence) (snapshot : Snapshot) (source : Source) (snapshots : List Snapshot)
      → check_evidence lib e snapshot source ≡ ok tt
      → Memᴰ snapshot snapshots
      → EvidenceSound snapshots e
  unfolding check_evidence
  check_evidence-Sound e snapshot source snapshots h m = record {
    snapshot = snapshot;
    stored = m;
    same_source = ground (arith, eq_iff e.source_id snapshot.source_id);
    resolves =
        validate_evidence_anchor-Resolves lib.hexdigest lib.splitlines e snapshot (ground arith);
    limits = (validate_evidence_classification_iff e).0 (ground arith);
  }

  pub with_snapshot :
      (l : Ledger) (s : Snapshot)
      → IsSound l
      → IsSound (record l { snapshots = l.snapshots ++ (s ∷ []) })
  unfolding history
  with_snapshot l s h = record {
    evidence =
        All-imp l.evidence
          (λ e k. record {
            snapshot = k.snapshot;
            stored = Memᴰ-snoc l.snapshots s k.snapshot k.stored;
            same_source = k.same_source;
            resolves = k.resolves;
            limits = k.limits;
          })
          h.evidence;
    reviews = h.reviews;
    reviewed_in_order = h.reviewed_in_order;
    changes = h.changes;
    histories = h.histories;
  }

  pub with_evidence :
      (l : Ledger) (e : Evidence)
      → EvidenceSound l.snapshots e
      → IsSound l
      → IsSound (record l { evidence = l.evidence ++ (e ∷ []) })
  unfolding history
  with_evidence l e k h = record {
    evidence = All-snoc (EvidenceSound l.snapshots) l.evidence e h.evidence k;
    reviews = h.reviews;
    reviewed_in_order = h.reviewed_in_order;
    changes = h.changes;
    histories = h.histories;
  }

  keep_review :
      (rs : List ChangeReviewItem) (new r : ChangeReviewItem)
      → ReviewSound rs r
      → ReviewSound (rs ++ (new ∷ [])) r
  keep_review rs new r (proposal a b) = proposal a b
  keep_review rs new r (decision prior m a b c) = decision prior (Memᴰ-snoc rs new prior m) a b c

  pub with_review :
      (l : Ledger) (r : ChangeReviewItem)
      → ReviewSound l.reviews r
      → IsSound l
      → IsSound (record l { reviews = l.reviews ++ (r ∷ []) })
  unfolding history
  with_review l r k h = record {
    evidence = h.evidence;
    reviews =
        All-snoc (ReviewSound (l.reviews ++ (r ∷ []))) l.reviews r
          (All-imp l.reviews (keep_review l.reviews r) h.reviews) (keep_review l.reviews r r k);
    reviewed_in_order = InOrder-snoc [] l.reviews r h.reviewed_in_order k;
    changes =
        All-imp l.confirmed_changes
          (λ c s. record {
            review = s.review;
            stored = Memᴰ-snoc l.reviews r s.review s.stored;
            has_id = s.has_id;
            is_confirmed = s.is_confirmed;
            by_human = s.by_human;
          })
          h.changes;
    histories = h.histories;
  }

  pub with_change :
      (l : Ledger) (c : ConfirmedChange)
      → ChangeSound l.reviews c
      → IsSound l
      → IsSound (record l { confirmed_changes = l.confirmed_changes ++ (c ∷ []) })
  unfolding history
  with_change l c k h = record {
    evidence = h.evidence;
    reviews = h.reviews;
    reviewed_in_order = h.reviewed_in_order;
    changes = All-snoc (ChangeSound l.reviews) l.confirmed_changes c h.changes k;
    histories = h.histories;
  }

  pub with_sources :
      (l : Ledger) (sources : List Source) → IsSound l → IsSound (record l { sources = sources })
  unfolding history
  with_sources l sources k = record {
    evidence = k.evidence;
    reviews = k.reviews;
    reviewed_in_order = k.reviewed_in_order;
    changes = k.changes;
    histories = k.histories;
  }
