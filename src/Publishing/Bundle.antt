-- ===== src/Publishing/Bundle.antt =====
-- `validate_publication_bundle` of src/agentic_security/publishing/validation.py, over the files below
-- the root of a bundle. Reading them is taken to succeed.
pub mod Valid
pub mod Published
pub mod Examples
use agentic_sec_blog_publish.Prelude.{
  ℕ, String, Bool, true, false, not, ◌&&◌, ◌||◌, ◌==◌, Option, none, some, List, [], ◌∷◌, map, any,
  select, find, length, eqb, is_member, if◌then◌else◌, join, codes, order_by, text_leb, Result, ok,
  err, ◌>>=◌, ◌>>◌, raise_if,
}
use agentic_sec_blog_publish.Publishing.{PublicationHash, PublicationManifest, same_files}
use agentic_sec_blog_publish.Publishing.Scan

pub record File : Type 0 where
  -- `path.relative_to(root).parts`
  pub parts : List String
  pub raw : List ℕ

pub record Library : Type 0 where
  pub scan : Scan.Library
  -- `raw.decode("utf-8")`
  pub decode : List ℕ → Option String
  pub hexdigest : List ℕ → String
  pub loads : String → Option Scan.Json
  -- `PublicationManifest.model_validate_json`
  pub model_validate_json : String → Option PublicationManifest
  -- `part.lower()`, and `path.suffix.lower()` of the last part.
  pub lower : String → String
  pub suffix : List String → String

pub data BundleRefusal : Type 0 where
  missing_manifest invalid_manifest unsorted_files not_enumerated : BundleRefusal
  hash_mismatch private_path unapproved_type not_text : (path : String) → BundleRefusal
  invalid_json : BundleRefusal
  found : Scan.ScanError → BundleRefusal

abbrev pub forbidden_parts : List String
forbidden_parts = "credentials" ∷ "private" ∷ "prompts" ∷ "snapshots" ∷ "traces" ∷ []

abbrev pub forbidden_suffixes : List String
forbidden_suffixes = ".db" ∷ ".sqlite" ∷ ".sqlite3" ∷ []

abbrev pub allowed_suffixes : List String
allowed_suffixes =
    ".astro" ∷ ".css" ∷ ".csv" ∷ ".html" ∷ ".js" ∷ ".json" ∷ ".md" ∷ ".mjs" ∷ ".svg" ∷ ".ts"
    ∷ ".tsx" ∷ ".txt" ∷ ".xml" ∷ []

-- `relative.as_posix()`
abbrev pub posix : File → String
posix file = join "/" file.parts

-- The order of `Path`s: part by part.
unfoldable pub parts_leb : List String → List String → Bool
parts_leb [] b = true
parts_leb (x ∷ xs) [] = false
parts_leb (x ∷ xs) (y ∷ ys) = let later = parts_leb xs ys in if x == y then later else text_leb x y

abbrev pub is_manifest : File → Bool
is_manifest file = join "/" file.parts == "manifest.json"

abbrev pub path_leb : PublicationHash → PublicationHash → Bool
path_leb a b = text_leb a.path b.path

abbrev pub or_refuse {ℓ} : {A : Type ℓ} → BundleRefusal → Option A → Result BundleRefusal A
or_refuse e none = err e
or_refuse e (some a) = ok a

abbrev pub scanned : Result Scan.ScanError (Unit {0}) → Result BundleRefusal (Unit {0})
scanned (ok u) = ok u
scanned (err e) = err (found e)

abbrev pub same_texts : List String → List String → Bool
same_texts [] [] = true
same_texts [] (y ∷ ys) = false
same_texts (x ∷ xs) [] = false
same_texts (x ∷ xs) (y ∷ ys) = (x == y) && same_texts xs ys

abbrev pub same_hash : PublicationHash → PublicationHash → Bool
same_hash a b = same_files (a ∷ []) (b ∷ [])

-- The paths of `sorted(root.rglob("*"))` that are files and not the manifest.
unfoldable pub actual_files : List File → List File
unfolding parts_leb
actual_files files =
    select (λ f. not (is_manifest f)) (order_by (λ a b. parts_leb a.parts b.parts) files)

module _ (lib : Library) where
  abbrev pub scan_json_file : Option Scan.Json → (path : String) → Result BundleRefusal (Unit {0})
  scan_json_file none path = err invalid_json
  scan_json_file (some value) path = scanned (Scan.scan_json lib.scan none value path)

  abbrev pub scan_text : (suffix path : String) → Option String → Result BundleRefusal (Unit {0})
  scan_text suffix path none = err (not_text path)
  scan_text suffix path (some text) = do
    raise_if (any (eqb 0) (codes text)) (not_text path)
    (if suffix == ".json"
        then scan_json_file (lib.loads text) path
        else scanned (Scan.scan_string lib.scan none text path))

  unfoldable pub scan_public_file : File → Result BundleRefusal (Unit {0})
  unfolding join
  scan_public_file file = do
    raise_if
        (any (λ part. is_member (lib.lower part) forbidden_parts) file.parts
          || is_member (lib.suffix file.parts) forbidden_suffixes)
        (private_path (posix file))
    raise_if (not (is_member (lib.suffix file.parts) allowed_suffixes))
        (unapproved_type (posix file))
    scan_text (lib.suffix file.parts) (posix file) (lib.decode file.raw)

  abbrev pub file_hash : File → PublicationHash
  file_hash file = record {
    path = posix file;
    sha256 = lib.hexdigest file.raw;
    size_bytes = length file.raw;
  }

  -- `zip(…, strict=True)`, which raises where the lists are not as long as each other.
  unfoldable pub check_files : List File → List PublicationHash → Result BundleRefusal (Unit {0})
  unfolding scan_public_file
  check_files [] [] = ok tt
  check_files [] (hash ∷ expected) = err not_enumerated
  check_files (file ∷ files) [] = err not_enumerated
  check_files (file ∷ files) (hash ∷ expected) = do
    scan_public_file file
    raise_if (not (same_hash (file_hash file) hash)) (hash_mismatch hash.path)
    check_files files expected

  abbrev pub check_manifest :
      List File → File → PublicationManifest → Result BundleRefusal PublicationManifest
  check_manifest files manifest_file manifest =
      let expected = order_by path_leb manifest.files in
      do
        raise_if (not (same_files manifest.files expected)) unsorted_files
        raise_if (not (same_texts (map (λ h. h.path) expected) (map posix (actual_files files))))
            not_enumerated
        check_files (actual_files files) expected
        scan_public_file manifest_file
        ok manifest

  unfoldable pub read_manifest : File → Result BundleRefusal PublicationManifest
  read_manifest manifest_file = do
    text ← or_refuse invalid_manifest (lib.decode manifest_file.raw)
    or_refuse invalid_manifest (lib.model_validate_json text)

  unfoldable pub validate_publication_bundle : List File → Result BundleRefusal PublicationManifest
  unfolding check_files actual_files read_manifest
  validate_publication_bundle files = do
    manifest_file ← or_refuse missing_manifest (find is_manifest files)
    manifest ← read_manifest manifest_file
    check_manifest files manifest_file manifest
