-- ===== src/Models/Sources.antt =====
-- SourcePolicy, Source and Snapshot of src/agentic_security/models.py, with their validators.
use agentic_sec_blog_publish.Prelude.{
  ℕ, String, Bool, true, false, not, ◌&&◌, ◌||◌, Option, none, some, ◌==◌, List, Result, ok, ◌>>◌,
  raise_if, is_empty,
}
use agentic_sec_blog_publish.Models.Vocabulary.{
  TrustClass, self, RegistryStatus, approved, SourceKind, SourceRole, input, output, ClaimPurpose,
  SubjectType,
}

pub record SourcePolicy : Type 0 where
  pub allowed_claim_types : List SubjectType
  pub prohibited_claim_types : List SubjectType
  pub allowed_claim_purposes : List ClaimPurpose
  pub prohibited_claim_purposes : List ClaimPurpose
  pub crawl_frequency : String
  pub human_approval_required : Bool
  pub usable_as_independent_evidence : Bool

pub record Source : Type 0 where
  pub id : String
  pub publisher : String
  pub name : String
  pub kind : SourceKind
  pub role : SourceRole
  pub domains : List String
  pub base_url : Option String
  pub repository : Option String
  pub trust_class : TrustClass
  pub status : RegistryStatus
  pub enabled : Bool
  pub policy : SourcePolicy
  pub pinned_at : ℕ
  pub fallback_note : String
  pub derivative_of_hints : List String
  pub notes : String

abbrev pub is_approved : RegistryStatus → Bool
is_approved approved = true
is_approved _ = false

abbrev pub is_self : TrustClass → Bool
is_self self = true
is_self _ = false

abbrev pub is_output : SourceRole → Bool
is_output output = true
is_output input = false

pub data SourceError : Type 0 where
  only_approved_enabled self_independent output_not_self : SourceError

-- `Source.approval_is_required`
unfoldable pub approval_is_required : Source → Result SourceError Source
approval_is_required s = do
  raise_if (s.enabled && not (is_approved s.status)) only_approved_enabled
  raise_if (is_self s.trust_class && s.policy.usable_as_independent_evidence) self_independent
  raise_if
      (is_output s.role
        && (not (is_self s.trust_class)
            || (s.policy.usable_as_independent_evidence
                || (not (is_empty s.policy.allowed_claim_types)
                    || not (is_empty s.policy.allowed_claim_purposes)))))
      output_not_self
  ok s

pub record Snapshot : Type 0 where
  pub id : String
  pub source_id : String
  pub canonical_uri : String
  pub retrieved_at : ℕ
  pub normalizer_version : String
  pub sha256 : String
  pub content_type : String
  pub raw_content : String
  pub normalized_text : String
  pub duplicate_of : Option String
  pub repository : Option String
  pub commit_sha : Option String
  pub file_path : Option String

-- Whether a text is given and not empty.
abbrev pub is_given : Option String → Bool
is_given none = false
is_given (some text) = not (text == "")

data SnapshotError : Type 0 where
  git_fields_incomplete : SnapshotError

-- `Snapshot.git_fields_are_complete`
unfoldable git_fields_are_complete : Snapshot → Result SnapshotError Snapshot
git_fields_are_complete s = do
  raise_if
      ((is_given s.repository || (is_given s.commit_sha || is_given s.file_path))
        && not (is_given s.repository && (is_given s.commit_sha && is_given s.file_path)))
      git_fields_incomplete
  ok s
