-- ===== src/Editorial/Examples.antt =====
-- The laws of the editorial artifacts at concrete inputs.
use agentic_sec_blog_publish.Prelude.{String, ◌≡◌, ◌↔◌, true, false, Option, none, [], ◌∷◌, any}
use agentic_sec_blog_publish.Models.Vocabulary.{
  material_changes, no_material_change, review_pending,
}
use agentic_sec_blog_publish.Models.Evidence.{Evidence}
use agentic_sec_blog_publish.Models.Changes.{StructuredDiff}
use agentic_sec_blog_publish.Editorial.{build_daily_brief}
use agentic_sec_blog_publish.Editorial.Status.{is_unreviewed, build_daily_brief-status}

abbrev candidate : StructuredDiff
candidate = record {
  id = "DIFF-1";
  source_id = "SRC-1";
  old_snapshot_id = "SNAP-1";
  new_snapshot_id = "SNAP-2";
  added = "agent" ∷ [];
  removed = [];
  cosmetic_only = false;
  paraphrase_only = false;
  derivative_only = false;
  material_candidate = true;
  evidence_status_subtype = none;
  fingerprint = "digest";
}

build_daily_brief-status_example :
    (((build_daily_brief (λ d. "2026-01-01") 5 [] (candidate ∷ []) [] true).status
        ≡ material_changes)
      ↔ (false ≡ true))
    × (((build_daily_brief (λ d. "2026-01-01") 5 [] (candidate ∷ []) [] true).status
          ≡ review_pending)
        ↔ ((false ≡ false) × (any (is_unreviewed []) (candidate ∷ []) ≡ true)))
    × (((build_daily_brief (λ d. "2026-01-01") 5 [] (candidate ∷ []) [] true).status
          ≡ no_material_change)
        ↔ ((false ≡ false) × (true ≡ false) × (true ≡ true)))
build_daily_brief-status_example =
    build_daily_brief-status (λ d. "2026-01-01") 5 [] (candidate ∷ []) [] true

abbrev no_evidence : String → Option Evidence
no_evidence id = none
