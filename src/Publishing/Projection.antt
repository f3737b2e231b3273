-- ===== src/Publishing/Projection.antt =====
-- src/agentic_security/publishing/projection.py: the export of the ledger as a bundle that replaces the
-- one before. What build_site_data gives and which operations on files fail are arguments; the names of
-- the stage and of the backup are new, so that nothing has them at first.
pub mod Atomic
pub mod Examples
use agentic_sec_blog_publish.Prelude.{
  ℕ, ◌+◌, String, Bool, true, false, Option, none, some, List, [], ◌∷◌, ◌++◌, map, leb, count_where,
  head?, is_some, not, ◌&&◌, if◌then◌else◌, order_by, decimal, Result, ok, err,
}
use Prim.Native.String.{◌++◌ as append}
use agentic_sec_blog_publish.Models.Evidence.{Evidence}
use agentic_sec_blog_publish.Models.Assertions.{Assertion}
use agentic_sec_blog_publish.Models.Changes.{MaterialChange, ChangeReviewItem, is_pending}
use agentic_sec_blog_publish.Publishing.{PublicationManifest}
use agentic_sec_blog_publish.Publishing.Bundle.{
  File, Library, BundleRefusal, parts_leb, file_hash, validate_publication_bundle,
}

-- What `read_publication_ledger` gives, as far as it is read here; of the systems, the times.
pub record LedgerData : Type 0 where
  pub methodology_version : String
  pub taxonomy_version : String
  pub methodology_published_at : ℕ
  pub systems_verified_at : List ℕ
  pub assertions : List Assertion
  pub evidence : List Evidence
  pub confirmed_changes : List MaterialChange
  pub latest_review_decisions : List ChangeReviewItem

-- What `build_site_data` gives: how many systems and changes, and the bytes that are written of it.
pub record Payload : Type 0 where
  pub systems : ℕ
  pub changes : ℕ
  pub dumped : List ℕ

abbrev given : List (Option ℕ) → List ℕ
given [] = []
given (none ∷ more) = given more
given (some t ∷ more) = t ∷ given more

abbrev latest : ℕ → List ℕ → ℕ
latest t [] = t
latest t (u ∷ more) = latest (if leb t u then u else t) more

abbrev latest_or : ℕ → List ℕ → ℕ
latest_or default [] = default
latest_or default (t ∷ more) = latest t more

-- `_semantic_as_of`
unfoldable semantic_as_of : LedgerData → ℕ
semantic_as_of ledger = latest_or ledger.methodology_published_at (
    ledger.systems_verified_at
    ++ (map (λ a. a.last_verified_at) ledger.assertions
        ++ (map (λ e. e.last_verified_at) ledger.evidence
            ++ (given (map (λ c. c.confirmed_at) ledger.confirmed_changes)
                ++ given (map (λ r. r.reviewed_at) ledger.latest_review_decisions)))))

abbrev first_or_zero : Option ℕ → ℕ
first_or_zero none = 0
first_or_zero (some version) = version

-- The rows of schema_migrations, where there is such a table.
unfoldable source_ledger_version : Option (List ℕ) → String
unfolding order_by decimal
source_ledger_version none = "sqlite-legacy-0"
source_ledger_version (some versions) =
    append "sqlite-schema-" (decimal (first_or_zero (head? (order_by (λ a b. leb b a) versions))))

pub data Operation : Type 0 where
  writes_data writes_manifest moves_target moves_stage removes_backup : Operation
  removes_stage restores_backup : Operation

pub data ExportError : Type 0 where
  os_error : ExportError
  refused : BundleRefusal → ExportError

-- The directory of the target, and the two beside it.
pub record Dirs : Type 0 where
  pub target : Option (List File)
  pub stage : Option (List File)
  pub backup : Option (List File)

abbrev pub Step : Type 0 → Type 0
Step A = Dirs → Result ExportError A × Dirs

infixl 5 ◌>>=◌ ◌>>◌
abbrev pub and_then :
    {A B : Type 0} → Result ExportError A × Dirs → (A → Step B) → Result ExportError B × Dirs
and_then (ok a, dirs) f = f a dirs
and_then (err e, dirs) f = (err e, dirs)

abbrev pub ◌>>=◌ : {A B : Type 0} → Step A → (A → Step B) → Step B
(m >>= f) dirs = and_then (m dirs) f

abbrev pub ◌>>◌ : {A B : Type 0} → Step A → Step B → Step B
m >> k = m >>= λ _. k

pub record Disk : Type 0 where
  pub fails : Operation → Bool
  -- What a failed write leaves in the stage, and a failed removal of what it removes.
  pub written : Option (List File)
  pub remains : List File
  pub dump_manifest : PublicationManifest → List ℕ

abbrev pub files_of : Option (List File) → List File
files_of none = []
files_of (some files) = files

module _ (lib : Library) (disk : Disk) where
  -- An operation that leaves `failed` behind where it raises, and else `done`.
  abbrev pub attempt : Operation → (failed done : Dirs) → Result ExportError (Unit {0}) × Dirs
  attempt operation failed done =
      if disk.fails operation then (err os_error, failed) else (ok tt, done)

  abbrev pub write_data : Payload → Step (Unit {0})
  write_data payload dirs =
      attempt writes_data (record dirs { stage = disk.written })
        (record dirs {
          stage = some (record { parts = "data" ∷ "ledger.json" ∷ []; raw = payload.dumped } ∷ []);
        })

  abbrev pub manifest_of :
      LedgerData
      → Payload
      → (version : String) → (generated_at : ℕ) → List File
      → PublicationManifest
  manifest_of ledger payload version generated_at files = record {
    generated_at = generated_at;
    methodology_version = ledger.methodology_version;
    taxonomy_version = ledger.taxonomy_version;
    source_ledger_version = version;
    content_count = payload.systems + payload.changes;
    confirmed_change_count = payload.changes;
    pending_review_count =
        count_where (λ item. is_pending item.status) ledger.latest_review_decisions;
    files = map (file_hash lib) (order_by (λ a b. parts_leb a.parts b.parts) files);
  }

  abbrev pub write_manifest :
      LedgerData → Payload → (version : String) → (generated_at : ℕ) → Step (Unit {0})
  write_manifest ledger payload version generated_at dirs =
      let files = files_of dirs.stage in
      let manifest = manifest_of ledger payload version generated_at files in
      attempt writes_manifest (record dirs { stage = disk.written })
        (record dirs {
          stage = some (
              files
              ++ (record { parts = "manifest.json" ∷ []; raw = disk.dump_manifest manifest } ∷ []));
        })

  abbrev pub checked : Result BundleRefusal PublicationManifest → Step PublicationManifest
  checked (ok manifest) dirs = (ok manifest, dirs)
  checked (err e) dirs = (err (refused e), dirs)

  abbrev pub validate_stage : Step PublicationManifest
  validate_stage dirs = checked (validate_publication_bundle lib (files_of dirs.stage)) dirs

  abbrev pub validate_target : Step PublicationManifest
  validate_target dirs = checked (validate_publication_bundle lib (files_of dirs.target)) dirs

  -- `if target.exists(): target.rename(backup)`
  abbrev pub move_target : Step (Unit {0})
  move_target dirs =
      if is_some dirs.target
      then attempt moves_target dirs (record dirs { target = none; backup = dirs.target })
      else (ok tt, dirs)

  abbrev pub move_stage : Step (Unit {0})
  move_stage dirs = attempt moves_stage dirs (record dirs { target = dirs.stage; stage = none })

  abbrev pub remove_backup : Step (Unit {0})
  remove_backup dirs =
      if is_some dirs.backup
      then attempt removes_backup (record dirs { backup = some disk.remains })
          (record dirs { backup = none })
      else (ok tt, dirs)

  -- The body of the `try`.
  unfoldable pub replace :
      LedgerData → Payload → (version : String) → (generated_at : ℕ) → Step PublicationManifest
  unfolding validate_publication_bundle parts_leb order_by
  replace ledger payload version generated_at = do
    write_data payload
    write_manifest ledger payload version generated_at
    validate_stage
    move_target
    move_stage
    remove_backup
    validate_target

  abbrev pub remove_stage : Step (Unit {0})
  remove_stage dirs =
      if is_some dirs.stage
      then attempt removes_stage (record dirs { stage = some disk.remains })
          (record dirs { stage = none })
      else (ok tt, dirs)

  abbrev pub restore_backup : Step (Unit {0})
  restore_backup dirs =
      if is_some dirs.backup && not (is_some dirs.target)
      then attempt restores_backup dirs (record dirs { target = dirs.backup; backup = none })
      else (ok tt, dirs)

  -- The `except`, whose own failure takes the place of what was raised.
  abbrev pub recover :
      Result ExportError PublicationManifest × Dirs → Result ExportError PublicationManifest × Dirs
  recover (ok manifest, dirs) = (ok manifest, dirs)
  recover (err e, dirs) = (remove_stage >> (restore_backup >> λ after. (err e, after))) dirs

  unfoldable pub export :
      LedgerData → Payload → (version : String) → (generated_at : ℕ) → Step PublicationManifest
  unfolding replace
  export ledger payload version generated_at dirs =
      recover (replace ledger payload version generated_at dirs)
