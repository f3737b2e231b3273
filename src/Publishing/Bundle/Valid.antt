-- ===== src/Publishing/Bundle/Valid.antt =====
-- What a bundle is that the validator accepts.
use agentic_sec_blog_publish.Prelude.{
  ◌≡◌, ◌↔◌, ◌∙◌, refl, sym, subst, ap, inl, inr, String, Bool, true, false, not, eq_iff, eq_refl,
  some, List, [], ◌∷◌, map, find, All, order_by, Result, ok, ◌>>◌, raise_if, then_ok, raise_if_ok,
  arith, Option-cases, Result-cases,
}
use agentic_sec_blog_publish.Publishing.{PublicationHash, PublicationManifest, same_files}
use agentic_sec_blog_publish.Publishing.Bundle.{
  File, Library, BundleRefusal, hash_mismatch, unsorted_files, not_enumerated, posix, is_manifest,
  path_leb, same_texts, scan_public_file, file_hash, same_hash, check_files, actual_files,
  check_manifest, read_manifest, validate_publication_bundle,
}

same_files-eq : (a b : List PublicationHash) → same_files a b ≡ true → a ≡ b
same_files-eq [] [] h = refl
same_files-eq [] (y ∷ ys) h = absurd (ground arith)
same_files-eq (x ∷ xs) [] h = absurd (ground arith)
same_files-eq (x ∷ xs) (y ∷ ys) h =
    let path : x.path ≡ y.path = ground (arith, eq_iff x.path y.path) in
    let sha256 : x.sha256 ≡ y.sha256 = ground (arith, eq_iff x.sha256 y.sha256) in
    let size : x.size_bytes ≡ y.size_bytes = ground arith in
    let rest : xs ≡ ys = same_files-eq xs ys (ground arith) in let same : x ≡ y = cc in cc

same_files_refl : (a : List PublicationHash) → same_files a a ≡ true
same_files_refl [] = refl
same_files_refl (x ∷ xs) = ground (arith, same_files_refl xs, eq_refl x.path, eq_refl x.sha256)

same_texts_refl : (a : List String) → same_texts a a ≡ true
same_texts_refl [] = refl
same_texts_refl (x ∷ xs) = ground (arith, same_texts_refl xs, eq_refl x)

of_negation : (b : Bool) → not b ≡ false → b ≡ true
of_negation b h = ground arith

module _ (lib : Library) where
  -- The manifest is there, is in the order of its paths, and lists the hash of every other file in the
  -- order of the paths; and every file is of an approved kind and passes the scan.
  pub record IsValid (files : List File) (manifest : PublicationManifest) : Type 0 where
    pub manifest_file : File
    pub placed : find is_manifest files ≡ some manifest_file
    pub text : String
    pub is_text : lib.decode manifest_file.raw ≡ some text
    pub parsed : lib.model_validate_json text ≡ some manifest
    pub sorted : manifest.files ≡ order_by path_leb manifest.files
    pub listed : map (file_hash lib) (actual_files files) ≡ manifest.files
    pub scanned : All (λ f. scan_public_file lib f ≡ ok tt) (actual_files files)
    pub manifest_scanned : scan_public_file lib manifest_file ≡ ok tt

  check_files-All :
      (files : List File) (expected : List PublicationHash)
      → check_files lib files expected ≡ ok tt
      → (map (file_hash lib) files ≡ expected) × All (λ f. scan_public_file lib f ≡ ok tt) files
  unfolding check_files
  check_files-All [] [] h = (refl, tt)
  check_files-All [] (hash ∷ expected) h = absurd (ground arith)
  check_files-All (file ∷ files) [] h = absurd (ground arith)
  check_files-All (file ∷ files) (hash ∷ expected) h =
      let wrong : Bool = not (same_hash (file_hash lib file) hash) in
      let outer =
        then_ok (scan_public_file lib file)
          (raise_if wrong (hash_mismatch hash.path) >> check_files lib files expected) tt h in
      let inner =
        then_ok (raise_if wrong (hash_mismatch hash.path)) (check_files lib files expected) tt
          outer.1 in
      let same : file_hash lib file ∷ [] ≡ hash ∷ [] =
        same_files-eq (file_hash lib file ∷ []) (hash ∷ []) (
          of_negation (same_hash (file_hash lib file) hash) (
            raise_if_ok (not (same_hash (file_hash lib file) hash)) (hash_mismatch hash.path)
              inner.0)) in
      let rest = check_files-All files expected inner.1 in
      let heads : file_hash lib file ≡ hash = cc in (cc (heads, rest.0), (outer.0, rest.1))

  All-check_files :
      (files : List File)
      → All (λ f. scan_public_file lib f ≡ ok tt) files
      → check_files lib files (map (file_hash lib) files) ≡ ok tt
  unfolding check_files
  All-check_files [] h = refl
  All-check_files (file ∷ files) h =
      rw (h.0, same_files_refl (file_hash lib file ∷ [])) (All-check_files files h.1)

  paths_of_hashes :
      (files : List File) → map (λ h. h.path) (map (file_hash lib) files) ≡ map posix files
  paths_of_hashes [] = refl
  paths_of_hashes (file ∷ files) = ap (λ rest. posix file ∷ rest) (paths_of_hashes files)

  check_manifest-IsValid :
      (files : List File) (manifest_file : File) (manifest result : PublicationManifest)
      → check_manifest lib files manifest_file manifest ≡ ok result
      → (manifest ≡ result)
        × (manifest.files ≡ order_by path_leb manifest.files)
        × (map (file_hash lib) (actual_files files) ≡ manifest.files)
        × All (λ f. scan_public_file lib f ≡ ok tt) (actual_files files)
        × (scan_public_file lib manifest_file ≡ ok tt)
  check_manifest-IsValid files manifest_file manifest result h =
      let expected = order_by path_leb manifest.files in
      let unsorted : Bool = not (same_files manifest.files expected) in
      let listed : Bool =
        same_texts (map (λ h. h.path) expected) (map posix (actual_files files)) in
      let last = scan_public_file lib manifest_file >> ok manifest in
      let checks = check_files lib (actual_files files) expected >> last in
      let a =
        then_ok (raise_if unsorted unsorted_files) (raise_if (not listed) not_enumerated >> checks)
          result h in
      let b = then_ok (raise_if (not listed) not_enumerated) checks result a.1 in
      let c = then_ok (check_files lib (actual_files files) expected) last result b.1 in
      let d = then_ok (scan_public_file lib manifest_file) (ok manifest) result c.1 in
      let sorted : manifest.files ≡ expected = same_files-eq manifest.files expected (
        of_negation (same_files manifest.files expected)
          (raise_if_ok unsorted unsorted_files a.0)) in
      let each = check_files-All (actual_files files) expected c.0 in
      (ground (arith, d.1), sorted, each.0 ∙ sym sorted, each.1, d.0)

  read_manifest_text :
      (file : File) (manifest : PublicationManifest)
      → read_manifest lib file ≡ ok manifest
      → (text : String) × (lib.decode file.raw ≡ some text)
        × (lib.model_validate_json text ≡ some manifest)
  unfolding read_manifest
  read_manifest_text file manifest h = elim (Option-cases (lib.decode file.raw)) [
    | inl d ↦ absurd (let j = rw d at h in ground arith)
    | inr (text, d) ↦
        let j = rw d at h in
        elim (Option-cases (lib.model_validate_json text)) [
          | inl p ↦ absurd (let l = rw p at j in ground arith)
          | inr (parsed, p) ↦ (text, d, let l = rw p at j in ground (arith, p))
        ]
  ]

  text-read_manifest :
      (file : File) (manifest : PublicationManifest) (text : String)
      → lib.decode file.raw ≡ some text
      → lib.model_validate_json text ≡ some manifest
      → read_manifest lib file ≡ ok manifest
  unfolding read_manifest
  text-read_manifest file manifest text d p = rw (d, p) refl

  -- `check_manifest`, of hashes in their order.
  abbrev checks_of :
      List File
      → File
      → PublicationManifest
      → (hashes expected : List PublicationHash) → Result BundleRefusal PublicationManifest
  checks_of files manifest_file manifest hashes expected =
      raise_if (not (same_files hashes expected)) unsorted_files
      >> (raise_if (not (same_texts (map (λ h. h.path) expected) (map posix (actual_files files))))
            not_enumerated
          >> (check_files lib (actual_files files) expected
              >> (scan_public_file lib manifest_file >> ok manifest)))

  IsValid-check_manifest :
      (files : List File) (manifest : PublicationManifest) (v : IsValid files manifest)
      → check_manifest lib files v.manifest_file manifest ≡ ok manifest
  IsValid-check_manifest files manifest v =
      let actual = actual_files files in
      let all : checks_of files v.manifest_file manifest (map (file_hash lib) actual)
            (map (file_hash lib) actual)
          ≡ ok manifest =
        rw
          (
            same_files_refl (map (file_hash lib) actual),
            paths_of_hashes actual,
            same_texts_refl (map posix actual),
            All-check_files actual v.scanned,
            v.manifest_scanned,
          )
          refl in
      let listed : checks_of files v.manifest_file manifest manifest.files manifest.files
          ≡ ok manifest =
        subst (λ m. checks_of files v.manifest_file manifest m m ≡ ok manifest) v.listed all in
      subst (λ e. checks_of files v.manifest_file manifest manifest.files e ≡ ok manifest) v.sorted
        listed

  -- The validator accepts the files of a bundle with a manifest exactly when manifest.json is there and
  -- reads as this manifest, its hashes are in the order of their paths and are those of all other files
  -- in the order of the files, and each file, manifest.json too, passes `scan_public_file`.
  pub validate_publication_bundle_iff :
      (files : List File) (manifest : PublicationManifest)
      → (validate_publication_bundle lib files ≡ ok manifest) ↔ IsValid files manifest
  unfolding validate_publication_bundle
  validate_publication_bundle_iff files manifest = (
    λ h. elim (Option-cases (find is_manifest files)) [
      | inl e ↦ absurd (let k = rw e at h in ground arith)
      | inr (file, e) ↦
          let k = rw e at h in
          elim (Result-cases (read_manifest lib file)) [
            | inr (x, r) ↦ absurd (let j = rw r at k in ground arith)
            | inl (parsed, r) ↦
                let c = check_manifest-IsValid files file parsed manifest (rw r at k) in
                let read = read_manifest_text file parsed r in
                subst (IsValid files) c.0 (record {
                  manifest_file = file;
                  placed = e;
                  text = read.0;
                  is_text = read.1;
                  parsed = read.2;
                  sorted = c.1;
                  listed = c.2;
                  scanned = c.3;
                  manifest_scanned = c.4;
                })
          ]
    ],
    λ v.
        rw (v.placed, text-read_manifest v.manifest_file manifest v.text v.is_text v.parsed)
          (IsValid-check_manifest files manifest v),
  )
