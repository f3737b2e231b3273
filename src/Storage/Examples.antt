-- ===== src/Storage/Examples.antt =====
-- A ledger that is written to from empty tables.
use agentic_sec_blog_publish.Prelude.{false, join, true, none, some, List, [], ◌∷◌}
use agentic_sec_blog_publish.Models.Vocabulary.{
  EvidenceMaturity, ChangeClassification, DecisionImpact, pending, confirmed, SubjectType,
}
use agentic_sec_blog_publish.Models.Changes.{ChangeReviewItem, MaterialChange, StructuredDiff}
use agentic_sec_blog_publish.Sources.Examples.{docs}
use agentic_sec_blog_publish.Evidence.Examples.{digest, lines, snapshot, anchor, evidence}
use agentic_sec_blog_publish.Storage.{Library, Ledger, history}
use agentic_sec_blog_publish.Storage.Sound.{IsSound}
use agentic_sec_blog_publish.Storage.Runs.{
  Operation, adds_source, adds_snapshot, adds_evidence, adds_review, adds_change, run_ledger,
  run_ledger-IsSound,
}

abbrev pub lib : Library
lib = record { hexdigest = digest; splitlines = lines; dumps = join "," }

abbrev pub diff : StructuredDiff
diff = record {
  id = "DIFF-1";
  source_id = "SRC-DOCS";
  old_snapshot_id = "SNAP-1";
  new_snapshot_id = "SNAP-2";
  added = [];
  removed = [];
  cosmetic_only = false;
  paraphrase_only = false;
  derivative_only = false;
  material_candidate = true;
  evidence_status_subtype = none;
  fingerprint = "f";
}

abbrev pub start : Ledger
start = record {
  systems = [];
  agents = [];
  sources = [];
  snapshots = [];
  evidence = [];
  lifecycle_events = [];
  methodology_versions = "ASI-1.0" ∷ [];
  structured_diffs = diff ∷ [];
  taxonomy_versions = [];
  assertions = [];
  assertion_evidence = [];
  observations = [];
  contradiction_flags = [];
  contradiction_resolutions = [];
  reviews = [];
  confirmed_changes = [];
}

start-IsSound : IsSound lib start
unfolding history
start-IsSound = record {
  evidence = tt;
  reviews = tt;
  reviewed_in_order = tt;
  changes = tt;
  histories = λ type id. tt;
}

abbrev pub proposed : ChangeReviewItem
proposed = record {
  id = "REVIEW-1";
  candidate_id = "DIFF-1";
  machine_classification = ChangeClassification.control_change;
  machine_rationale = "controls";
  machine_decision_impacts = DecisionImpact.risk ∷ [];
  evidence_status_subtype = none;
  status = pending;
  reviewer = none;
  reviewed_at = none;
  human_classification = none;
  confirmed_decision_impacts = [];
  human_rationale = none;
  methodology_version = "ASI-1.0";
  prior_review_id = none;
}

abbrev pub decided : ChangeReviewItem
decided = record proposed {
  id = "REVIEW-2";
  status = confirmed;
  reviewer = some "reviewer";
  reviewed_at = some 9;
  human_classification = some ChangeClassification.control_change;
  confirmed_decision_impacts = DecisionImpact.risk ∷ [];
  human_rationale = some "seen";
  prior_review_id = some "REVIEW-1";
}

abbrev change : MaterialChange
change = record {
  id = "CHANGE-1";
  assertion_ids = [];
  description = "controls";
  dimensions = SubjectType.control ∷ [];
  decision_impacts = DecisionImpact.risk ∷ [];
  human_confirmed = true;
  confirmed_by = some "reviewer";
  confirmed_at = some 9;
}

-- The change is refused before its review is confirmed, and accepted after.
abbrev writes : List Operation
writes =
    adds_source docs
    ∷ adds_snapshot snapshot
    ∷ adds_evidence (evidence anchor EvidenceMaturity.e1)
    ∷ adds_review proposed
    ∷ adds_change change "REVIEW-1"
    ∷ adds_review decided
    ∷ adds_change change "REVIEW-2"
    ∷ []

run_ledger-IsSound_example : IsSound lib (run_ledger lib writes start)
run_ledger-IsSound_example = run_ledger-IsSound lib writes start start-IsSound
