-- ===== src/Collection/Service/Kept.antt =====
-- What a collection that is stored adds to the ledger.
use agentic_sec_blog_publish.Prelude.{
  suc, ◌+◌, ◌≡◌, refl, sym, subst, ap, inl, inr, Bool, true, false, eq_refl, List, [], ◌∷◌, ◌++◌,
  any, length, length-append, All, Bool-cases, Result-cases, ok, arith, ◌||◌,
}
use agentic_sec_blog_publish.Models.Sources.{Source, Snapshot}
use agentic_sec_blog_publish.Storage.{Library, Ledger, sync, add_snapshot}
use agentic_sec_blog_publish.Storage.Sound.{IsSound}
use agentic_sec_blog_publish.Storage.Operations.{sync-IsSound, add_snapshot-IsSound}
use agentic_sec_blog_publish.Collection.Service.{
  Store, Progress, CollectionResult, is_same_text, with_file, sync_all, store_one, store_all,
  verify_persisted, result_of, persist,
}

any-append {ℓ} :
    {A : Type ℓ} (q : A → Bool) (xs ys : List A) → any q (xs ++ ys) ≡ (any q xs || any q ys)
any-append q [] ys = refl
any-append q (x ∷ xs) ys = ground (arith, any-append q xs ys)

add_snapshot-rows :
    (s : Snapshot) (l l2 : Ledger)
    → add_snapshot s l ≡ ok l2
    → l.snapshots ++ (s ∷ []) ≡ l2.snapshots
unfolding add_snapshot
add_snapshot-rows s l l2 h =
    let same : record l { snapshots = l.snapshots ++ (s ∷ []) } ≡ l2 = ground arith in
    ap (λ x. x.snapshots) same

-- What one snapshot adds: a row with its text is there, no row is lost, and it is counted once.
record Adds (snapshot : Snapshot) (p p2 : Progress) : Type 0 where
  present : any (is_same_text snapshot) ((p2.store).ledger).snapshots ≡ true
  kept :
      (q : Snapshot → Bool)
      → any q ((p.store).ledger).snapshots ≡ true
      → any q ((p2.store).ledger).snapshots ≡ true
  counted : length p2.persisted + p2.duplicates ≡ suc (length p.persisted + p.duplicates)

store_one-Adds :
    (p p2 : Progress) (snapshot : Snapshot) → store_one p snapshot ≡ ok p2 → Adds snapshot p p2
unfolding store_one
store_one-Adds p p2 snapshot h =
    let rows = ((p.store).ledger).snapshots in
    elim (Bool-cases (any (is_same_text snapshot) rows)) [
      | inl b ↦
          let j = rw b at h in
          let same : record p { duplicates = suc p.duplicates } ≡ p2 = ground arith in
          subst (Adds snapshot p) same
            (record { present = b; kept = λ q k. k; counted = omega arith })
      | inr b ↦ elim (Result-cases (add_snapshot snapshot (p.store).ledger)) [
        | inr (x, a) ↦ absurd (let j = rw (b, a) at h in ground arith)
        | inl (l, a) ↦
            let j = rw (b, a) at h in
            let longer = add_snapshot-rows snapshot (p.store).ledger l a in
            let own : is_same_text snapshot snapshot ≡ true =
              ground (arith, eq_refl snapshot.source_id, eq_refl snapshot.sha256) in
            let added : (q : Snapshot → Bool)
                → any q l.snapshots ≡ (any q rows || (q snapshot || false)) =
              λ q.
                subst (λ r. any q r ≡ (any q rows || (q snapshot || false))) longer
                  (any-append q rows (snapshot ∷ [])) in
            let q2 : Progress = record {
              store = record { ledger = l; files = with_file snapshot.id (p.store).files };
              persisted = p.persisted ++ (snapshot.id ∷ []);
              duplicates = p.duplicates;
            } in
            let same : q2 ≡ p2 = ground arith in
            subst (Adds snapshot p) same (record {
              present = ground (arith, own, added (is_same_text snapshot));
              kept = λ q k. ground (arith, k, added q);
              counted = omega (arith, length-append p.persisted (snapshot.id ∷ []));
            })
      ]
    ]

store_all-kept :
    (fetched : List (Source × Snapshot)) (p p2 : Progress) (q : Snapshot → Bool)
    → store_all fetched p ≡ ok p2
    → any q ((p.store).ledger).snapshots ≡ true
    → any q ((p2.store).ledger).snapshots ≡ true
unfolding store_all
store_all-kept [] p p2 q h k =
    let same : p ≡ p2 = ground arith in
    subst (λ x. any q ((x.store).ledger).snapshots ≡ true) same k
store_all-kept ((source, snapshot) ∷ rest) p p2 q h k = elim (Result-cases (store_one p snapshot)) [
  | inr (x, a) ↦ absurd (let j = rw a at h in ground arith)
  | inl (p1, a) ↦
      store_all-kept rest p1 p2 q (rw a at h) ((store_one-Adds p p1 snapshot a).kept q k)
]

pub record AllAdded (fetched : List (Source × Snapshot)) (p p2 : Progress) : Type 0 where
  pub present : All (λ f. any (is_same_text f.1) ((p2.store).ledger).snapshots ≡ true) fetched
  pub counted :
      length p2.persisted + p2.duplicates ≡ length fetched + (length p.persisted + p.duplicates)

store_all-AllAdded :
    (fetched : List (Source × Snapshot)) (p p2 : Progress)
    → store_all fetched p ≡ ok p2
    → AllAdded fetched p p2
unfolding store_all
store_all-AllAdded [] p p2 h =
    let same : p ≡ p2 = ground arith in
    subst (AllAdded [] p) same (record { present = tt; counted = omega arith })
store_all-AllAdded ((source, snapshot) ∷ rest) p p2 h = elim (Result-cases (store_one p snapshot)) [
  | inr (x, a) ↦ absurd (let j = rw a at h in ground arith)
  | inl (p1, a) ↦
      let j = rw a at h in
      let one = store_one-Adds p p1 snapshot a in
      let more = store_all-AllAdded rest p1 p2 j in
      record {
        present = (store_all-kept rest p1 p2 (is_same_text snapshot) j one.present, more.present);
        counted = omega (arith, one.counted, more.counted);
      }
]

-- A collection that reports a result has, for each snapshot that was fetched, a row with its source
-- and hash in the ledger, and its counts of new and known snapshots add up to what was fetched.
pub persist-AllAdded :
    (same_source : Source → Source → Bool) (fetched : List (Source × Snapshot)) (s : Store)
    (result : CollectionResult)
    → (persist same_source fetched s).0 ≡ ok result
    → All
        (λ f. any (is_same_text f.1) (((persist same_source fetched s).1).ledger).snapshots ≡ true)
        fetched
      × (result.fetched_count ≡ length fetched)
      × (result.persisted_count + result.duplicate_count ≡ length fetched)
unfolding persist verify_persisted
persist-AllAdded same_source fetched s result h = elim (Result-cases (sync_all fetched s.ledger)) [
  | inr (x, a) ↦ absurd (let j = rw a at h in ground arith)
  | inl (l, a) ↦
      let start : Progress = record {
        store = record s { ledger = l };
        persisted = [];
        duplicates = 0;
      } in
      let j = rw a at h in
      elim (Result-cases (store_all fetched start)) [
        | inr ((x, created, left), b) ↦ absurd (let i = rw b at j in ground arith)
        | inl (p, b) ↦
            let i = rw b at j in
            let all = store_all-AllAdded fetched start p b in
            let same : result_of same_source fetched p ≡ result = ground arith in
            rw (a, b)
              (
                all.present,
                sym (ap (λ r. r.fetched_count) same),
                subst (λ r. r.persisted_count + r.duplicate_count ≡ length fetched) same
                    (omega (arith, all.counted)),
              )
      ]
]

module _ (lib : Library) where
  sync_all-IsSound :
      (fetched : List (Source × Snapshot)) (l l2 : Ledger)
      → sync_all fetched l ≡ ok l2
      → IsSound lib l
      → IsSound lib l2
  unfolding sync_all
  sync_all-IsSound [] l l2 h k = subst (IsSound lib) (let same : l ≡ l2 = ground arith in same) k
  sync_all-IsSound ((source, snapshot) ∷ rest) l l2 h k = elim (Result-cases (sync source l)) [
    | inr (x, a) ↦ absurd (let j = rw a at h in ground arith)
    | inl (l1, a) ↦ sync_all-IsSound rest l1 l2 (rw a at h) (sync-IsSound lib source l l1 a k)
  ]

  store_one-IsSound :
      (p p2 : Progress) (snapshot : Snapshot)
      → store_one p snapshot ≡ ok p2
      → IsSound lib (p.store).ledger
      → IsSound lib (p2.store).ledger
  unfolding store_one
  store_one-IsSound p p2 snapshot h k =
      elim (Bool-cases (any (is_same_text snapshot) ((p.store).ledger).snapshots)) [
        | inl b ↦
            let j = rw b at h in
            let same : record p { duplicates = suc p.duplicates } ≡ p2 = ground arith in
            subst (λ x. IsSound lib (x.store).ledger) same k
        | inr b ↦ elim (Result-cases (add_snapshot snapshot (p.store).ledger)) [
          | inr (x, a) ↦ absurd (let j = rw (b, a) at h in ground arith)
          | inl (l, a) ↦
              let j = rw (b, a) at h in
              let same : l ≡ (p2.store).ledger = ground arith in
              subst (IsSound lib) same (add_snapshot-IsSound lib snapshot (p.store).ledger l a k)
        ]
      ]

  store_all-IsSound :
      (fetched : List (Source × Snapshot)) (p p2 : Progress)
      → store_all fetched p ≡ ok p2
      → IsSound lib (p.store).ledger
      → IsSound lib (p2.store).ledger
  unfolding store_all
  store_all-IsSound [] p p2 h k =
      subst (λ x. IsSound lib (x.store).ledger) (let same : p ≡ p2 = ground arith in same) k
  store_all-IsSound ((source, snapshot) ∷ rest) p p2 h k =
      elim (Result-cases (store_one p snapshot)) [
        | inr (x, a) ↦ absurd (let j = rw a at h in ground arith)
        | inl (p1, a) ↦
            store_all-IsSound rest p1 p2 (rw a at h) (store_one-IsSound p p1 snapshot a k)
      ]

  -- A collection keeps the ledger sound, whether it succeeds or fails.
  pub persist-IsSound :
      (same_source : Source → Source → Bool) (fetched : List (Source × Snapshot)) (s : Store)
      → IsSound lib s.ledger
      → IsSound lib ((persist same_source fetched s).1).ledger
  unfolding persist
  persist-IsSound same_source fetched s k = elim (Result-cases (sync_all fetched s.ledger)) [
    | inr (x, a) ↦ rw a k
    | inl (l, a) ↦
        let start : Progress = record {
          store = record s { ledger = l };
          persisted = [];
          duplicates = 0;
        } in
        elim (Result-cases (store_all fetched start)) [
          | inr ((x, created, left), b) ↦ rw (a, b) k
          | inl (p, b) ↦
              rw (a, b)
                (store_all-IsSound fetched start p b (sync_all-IsSound fetched s.ledger l a k))
        ]
  ]
