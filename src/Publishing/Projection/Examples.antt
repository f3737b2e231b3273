-- ===== src/Publishing/Projection/Examples.antt =====
-- An export whose last clean-up fails.
use agentic_sec_blog_publish.Prelude.{
  ◌≡◌, refl, Bool, true, false, none, some, [], ◌∷◌, ok, err, order_by, text_leb, join, decimal,
}
use agentic_sec_blog_publish.Publishing.{PublicationManifest}
use agentic_sec_blog_publish.Publishing.Scan.{scan_json, scan_string, scan_plain, is_forbidden_key}
use agentic_sec_blog_publish.Publishing.Bundle.{
  Library, parts_leb, validate_publication_bundle, read_manifest, check_files, actual_files,
  scan_public_file,
}
use agentic_sec_blog_publish.Publishing.Bundle.Examples.{lib, files}
use agentic_sec_blog_publish.Publishing.Projection.{
  LedgerData, Payload, Operation, moves_stage, ExportError, Dirs, Disk, source_ledger_version,
  semantic_as_of, replace, export,
}
use agentic_sec_blog_publish.Publishing.Projection.Atomic.{Ends, export-Ends}

abbrev ledger : LedgerData
ledger = record {
  methodology_version = "ASI-1.0";
  taxonomy_version = "1.0";
  methodology_published_at = 3;
  systems_verified_at = 5 ∷ 9 ∷ 7 ∷ [];
  assertions = [];
  evidence = [];
  confirmed_changes = [];
  latest_review_decisions = [];
}

abbrev payload : Payload
payload = record { systems = 1; changes = 0; dumped = 2 ∷ 2 ∷ [] }

abbrev disk : (Operation → Bool) → Disk
disk fails = record {
  fails = fails;
  written = some [];
  remains = [];
  dump_manifest = λ manifest. 1 ∷ [];
}

abbrev stuck_stage : Operation → Bool
stuck_stage moves_stage = true
stuck_stage _ = false

abbrev expected : PublicationManifest
expected = record {
  generated_at = 12;
  methodology_version = "ASI-1.0";
  taxonomy_version = "1.0";
  source_ledger_version = "sqlite-schema-4";
  content_count = 1;
  confirmed_change_count = 0;
  pending_review_count = 0;
  files = record { path = "data/ledger.json"; sha256 = "c0ffee"; size_bytes = 2 } ∷ [];
}

abbrev reads : Library
reads = record lib { model_validate_json = λ text. some expected }

abbrev before : Dirs
before = record { target = some files; stage = none; backup = none }

is_latest : semantic_as_of ledger ≡ 9
unfolding semantic_as_of
is_latest = refl

is_fourth : source_ledger_version (some (2 ∷ 4 ∷ 3 ∷ [])) ≡ "sqlite-schema-4"
unfolding source_ledger_version order_by decimal
is_fourth = refl

exports :
    (export reads (disk (λ operation. false)) ledger payload "sqlite-schema-4" 12 before).0
    ≡ ok expected
unfolding export replace validate_publication_bundle read_manifest check_files actual_files
    scan_public_file parts_leb scan_json scan_string scan_plain is_forbidden_key order_by text_leb
    join
exports = refl

restores :
    export reads (disk stuck_stage) ledger payload "sqlite-schema-4" 12 before
    ≡ (err ExportError.os_error, before)
unfolding export replace validate_publication_bundle read_manifest check_files actual_files
    scan_public_file parts_leb scan_json scan_string scan_plain is_forbidden_key order_by text_leb
    join
restores = refl

export-Ends_example :
    Ends reads
      (disk stuck_stage)
      (some files)
      (export reads (disk stuck_stage) ledger payload "sqlite-schema-4" 12 before)
export-Ends_example =
    export-Ends reads (disk stuck_stage) refl refl ledger payload "sqlite-schema-4" 12 (some files)
