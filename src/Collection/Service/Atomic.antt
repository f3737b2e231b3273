-- ===== src/Collection/Service/Atomic.antt =====
-- What a run of the collection leaves behind, when it fails and when it succeeds.
use agentic_sec_blog_publish.Prelude.{
  ◌≡◌, refl, ap, inl, inr, String, Bool, true, false, not, ◌∙◌, eq_refl, select, append-nil,
  select-append, ◌||◌, ◌==◌, eq_iff, List, [], ◌∷◌, ◌++◌, any, All, Bool-cases, Result-cases,
  Result, ok, err, arith,
}
use agentic_sec_blog_publish.Models.Sources.{Source, Snapshot}
use agentic_sec_blog_publish.Storage.{Ledger, StorageError, add_snapshot}
use agentic_sec_blog_publish.Collection.Service.{
  Raised, saved, with_file, not_stored, Store, Progress, is_same_text, sync_all, without_files,
  store_one, store_all, store_synced, verify_persisted, persist,
}

-- No file has this id.
abbrev pub IsNew : List String → String → Type 0
IsNew files id = any (λ f. f == id) files ≡ false

without_files-nothing : (files : List String) → without_files [] files ≡ files
without_files-nothing [] = refl
without_files-nothing (f ∷ files) = ap (λ l. f ∷ l) (without_files-nothing files)

any-snoc :
    (p : String → Bool) (xs : List String) (x : String) → any p (xs ++ (x ∷ [])) ≡ (any p xs || p x)
any-snoc p [] x = ground arith
any-snoc p (y ∷ xs) x = ground (arith, any-snoc p xs x)

-- One more created file is one more that is removed.
without_files-snoc :
    (created : List String) (id : String) (files : List String)
    → without_files (created ++ (id ∷ [])) files
      ≡ select (λ f. not (id == f)) (without_files created files)
without_files-snoc created id [] = refl
without_files-snoc created id (f ∷ files) =
    ground (arith, any-snoc (λ c. c == f) created id, without_files-snoc created id files)

select-new :
    (id : String) (files : List String) → IsNew files id → select (λ f. not (id == f)) files ≡ files
select-new id [] h = refl
select-new id (f ∷ files) h = ground (arith, eq_iff f id, eq_iff id f, select-new id files)

without_files-with_file :
    (created : List String) (id : String) (files left : List String)
    → IsNew files id
    → without_files created left ≡ files
    → without_files (created ++ (id ∷ [])) (with_file id left) ≡ files
without_files-with_file created id files left k h =
    let cut : without_files (created ++ (id ∷ [])) left ≡ files =
      without_files-snoc created id left
      ∙ ap (select (λ f. not (id == f))) h
      ∙ select-new id files k in
    let own : any (λ c. c == id) (created ++ (id ∷ [])) ≡ true =
      ground (arith, any-snoc (λ c. c == id) created id, eq_refl id) in
    elim (Bool-cases (any (λ f. f == id) left)) [
      | inl known ↦ rw known cut
      | inr fresh ↦
          rw
            (
              fresh,
              select-append (λ f. not (any (λ c. c == f) (created ++ (id ∷ [])))) left (id ∷ []),
              own,
              append-nil (without_files (created ++ (id ∷ [])) left),
            )
            cut
    ]

-- Without the created files, the files are these.
abbrev Restores : List String → Result Raised Progress → Type 0
Restores files (ok p) = without_files p.persisted (p.store).files ≡ files
Restores files (err (e, created, left)) = without_files created left ≡ files

saved-Restores :
    (files : List String) (p : Progress) (snapshot : Snapshot) (r : Result StorageError Ledger)
    → IsNew files snapshot.id
    → Restores files (ok p)
    → Restores files (saved p snapshot r)
saved-Restores files p snapshot (ok l) k h =
    without_files-with_file p.persisted snapshot.id files (p.store).files k h
saved-Restores files p snapshot (err e) k h =
    without_files-with_file p.persisted snapshot.id files (p.store).files k h

store_one-Restores :
    (files : List String) (p : Progress) (snapshot : Snapshot)
    → IsNew files snapshot.id
    → Restores files (ok p)
    → Restores files (store_one p snapshot)
unfolding store_one
store_one-Restores files p snapshot k h =
    elim (Bool-cases (any (is_same_text snapshot) ((p.store).ledger).snapshots)) [
      | inl same ↦ rw same h
      | inr new ↦
          rw new (saved-Restores files p snapshot (add_snapshot snapshot (p.store).ledger) k h)
    ]

store_all-Restores :
    (files : List String) (fetched : List (Source × Snapshot)) (p : Progress)
    → All (λ f. IsNew files f.1.id) fetched
    → Restores files (ok p)
    → Restores files (store_all fetched p)
unfolding store_all
store_all-Restores files [] p k h = h
store_all-Restores files ((source, snapshot) ∷ rest) p k h =
    let one = store_one-Restores files p snapshot k.0 h in
    elim (Result-cases (store_one p snapshot)) [
      | inr (x, a) ↦ rw a (rw a at one)
      | inl (p2, a) ↦ rw a (store_all-Restores files rest p2 k.1 (rw a at one))
    ]

store_synced-Restores :
    (fetched : List (Source × Snapshot)) (s : Store) (synced : Result StorageError Ledger)
    → All (λ f. IsNew s.files f.1.id) fetched
    → Restores s.files (store_synced fetched s synced)
store_synced-Restores fetched s (err x) k = without_files-nothing s.files
store_synced-Restores fetched s (ok l) k =
    store_all-Restores s.files fetched _ k (without_files-nothing s.files)

-- When the ledger refuses what was fetched, and there is no file yet for any of the fetched snapshots, the
-- ledger and the files end as they were: the transaction is rolled back, and the files that were
-- written before the error are removed again, and no other.
pub persist-refused :
    (same_source : Source → Source → Bool) (fetched : List (Source × Snapshot)) (s : Store)
    (e : StorageError)
    → All (λ f. IsNew s.files f.1.id) fetched
    → (persist same_source fetched s).0 ≡ err (not_stored e)
    → (persist same_source fetched s).1 ≡ s
unfolding persist verify_persisted
persist-refused same_source fetched s e h q =
    let restored = store_synced-Restores fetched s (sync_all fetched s.ledger) h in
    elim (Result-cases (store_synced fetched s (sync_all fetched s.ledger))) [
      | inr ((x, created, left), a) ↦ rw a (ap (λ f. record s { files = f }) (rw a at restored))
      | inl (p, a) ↦ absurd (let j = rw a at q in ground arith)
    ]
