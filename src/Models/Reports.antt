-- ===== src/Models/Reports.antt =====
-- ContradictionFlag, ContradictionResolution, ClaimCheck, DailyBrief and WeeklyEvidencePack of
-- src/agentic_security/models.py.
use agentic_sec_blog_publish.Prelude.{ℕ, String, Bool, List}
use agentic_sec_blog_publish.Models.Vocabulary.{AssertionState, ReviewStatus, DailyStatus}
use agentic_sec_blog_publish.Models.Assertions.{AssertionScope}

-- `type` has one value.
pub record ContradictionFlag : Type 0 where
  pub id : String
  pub assertion_ids : List String
  pub detected_by : String
  pub rationale : String
  pub human_review_required : Bool
  pub status : ReviewStatus

pub record ContradictionResolution : Type 0 where
  pub id : String
  pub conflict_id : String
  pub resolution : String
  pub resulting_state : AssertionState
  pub resulting_scope : AssertionScope
  pub reviewer : String
  pub reviewed_at : ℕ

pub record ClaimCheck : Type 0 where
  pub claim : String
  pub evidence_ids : List String
  pub supported : Bool
  pub rationale : String

pub record DailyBrief : Type 0 where
  pub date : ℕ
  pub markdown : String
  pub confirmed_change_ids : List String
  pub status : DailyStatus

pub record WeeklyEvidencePack : Type 0 where
  pub week_ending : ℕ
  pub markdown : String
  pub confirmed_change_ids : List String
  pub open_conflict_ids : List String
  pub freshness_alert_assertion_ids : List String
