-- ===== src/Editorial/Weekly.antt =====
-- `build_weekly_pack` of src/agentic_security/editorial/reports.py.
use Prim.Native.String.{◌++◌ as append}
use agentic_sec_blog_publish.Prelude.{
  ℕ, String, Bool, true, false, List, [], ◌∷◌, ◌++◌, map, select, join, order_by, text_leb,
}
use agentic_sec_blog_publish.Models.Vocabulary.{Freshness, stale, revalidation_required}
use agentic_sec_blog_publish.Models.Changes.{MaterialChange, is_pending}
use agentic_sec_blog_publish.Models.Reports.{ContradictionFlag, WeeklyEvidencePack}
use agentic_sec_blog_publish.Editorial.{confirmed_changes}

-- `value in {STALE, REVALIDATION_REQUIRED}`
abbrev pub is_alert : Freshness → Bool
is_alert stale = true
is_alert revalidation_required = true
is_alert _ = false

abbrev pub freshness_alerts : List (String × Freshness) → List String
freshness_alerts freshness = map (λ item. item.0) (select (λ item. is_alert item.1) freshness)

abbrev pub open_conflicts : List ContradictionFlag → List ContradictionFlag
open_conflicts = select (λ item. is_pending item.status)

abbrev pub no_content_lines : (reviewed_content_available : Bool) → List String
no_content_lines true = []
no_content_lines false =
    "### No Reviewed Content" ∷ ""
    ∷ "The initialized ledger contains no reviewed systems or evidence-backed changes. No weekly change conclusion is implied."
    ∷ "" ∷ []

-- The names of a mapping are distinct, so that `sorted` compares no values.
abbrev pub trend_lines : List (String × String) → List String
trend_lines results =
    map (λ item. append "- " (append item.0 (append ": " item.1)))
      (order_by (λ a b. text_leb a.0 b.0) results)

abbrev pub last_sections : List String
last_sections =
    "" ∷ "## Architecture/Control Pattern" ∷ "" ∷ "## Independent Perspective" ∷ ""
    ∷ "## What Remains Unknown" ∷ "" ∷ "## Implications" ∷ "" ∷ "## What to Watch Next" ∷ ""
    ∷ "## Methodology" ∷ "" ∷ "## Sources" ∷ "" ∷ "Interpretation sections remain human-authored."
    ∷ []

unfoldable pub build_weekly_pack :
    (isoformat : ℕ → String)
    → (week_ending : ℕ) → List MaterialChange
    → List ContradictionFlag
    → List (String × Freshness)
    → (trend_results : List (String × String)) → (reviewed_content_available : Bool)
    → WeeklyEvidencePack
build_weekly_pack isoformat week_ending changes conflicts freshness trend_results
      reviewed_content_available =
    let changed = confirmed_changes changes in
    let open_ones = open_conflicts conflicts in
    let alerts = freshness_alerts freshness in
    let lines =
      (append "# Weekly Evidence Pack — " (isoformat week_ending)
        ∷ ""
        ∷ "## Executive Summary"
        ∷ ""
        ∷ [])
      ++ no_content_lines reviewed_content_available
      ++ ("## What Changed This Week" ∷ [])
      ++ map (λ item. append "- " item.description) changed
      ++ ("" ∷ "## Evidence Conflicts" ∷ [])
      ++ map (λ item. append "- " (append item.id (append ": " item.rationale))) open_ones
      ++ ("" ∷ "## Freshness Alerts" ∷ [])
      ++ map (λ item. append "- " item) alerts
      ++ ("" ∷ "## Trend Primitives" ∷ [])
      ++ trend_lines trend_results
      ++ last_sections in
    record {
      week_ending = week_ending;
      markdown = append (join "\n" lines) "\n";
      confirmed_change_ids = map (λ item. item.id) changed;
      open_conflict_ids = map (λ item. item.id) open_ones;
      freshness_alert_assertion_ids = alerts;
    }
