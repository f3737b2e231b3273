-- ===== src/Models/Vocabulary.antt =====
-- The enumerations of src/agentic_security/models.py.

pub data TrustClass : Type 0 where
  primary official research independent community secondary unverified self : TrustClass

pub data RegistryStatus : Type 0 where
  proposed approved disabled : RegistryStatus

pub data SourceKind : Type 0 where
  http git fixture : SourceKind

pub data SourceRole : Type 0 where
  input output : SourceRole

pub data SourceClass : Type 0 where
  p1 p2 r1 r2 o1 i1 c1 s1 u : SourceClass

pub data EvidenceMaturity : Type 0 where
  e0 e1 e2 e3 e4 e5 : EvidenceMaturity

pub data AssertionState : Type 0 where
  affirmed explicitly_unsupported unknown partial conditional disputed : AssertionState

pub data ClaimPurpose : Type 0 where
  documentation demonstration benchmark_result independent_validation : ClaimPurpose
  effectiveness : ClaimPurpose

pub data SubjectType : Type 0 where
  capability control architecture_pattern autonomy_facet availability : SubjectType
  benchmark_result : SubjectType

pub data SupportConfidence : Type 0 where
  high medium low : SupportConfidence

pub data Freshness : Type 0 where
  fresh aging stale revalidation_required : Freshness

pub data AvailabilityState : Type 0 where
  unknown private_preview limited_public_preview public_preview ga deprecated : AvailabilityState

pub data FundingRelationship : Type 0 where
  none_given unrestricted_grant commissioned employment undisclosed : FundingRelationship

pub data CommercialRelationship : Type 0 where
  none_given customer partner vendor_self undisclosed : CommercialRelationship

pub data IndependenceDesignation : Type 0 where
  independent vendor_influenced vendor_self undetermined : IndependenceDesignation

pub data Trigger : Type 0 where
  human_initiated event_driven scheduled continuous : Trigger

pub data PermissionScope : Type 0 where
  read_only scoped_write broad_write unknown : PermissionScope

pub data HumanGate : Type 0 where
  pre_action post_action notify_only none_given unknown : HumanGate

pub data DecisionImpact : Type 0 where
  deployment authorization architecture risk procurement operations evaluation : DecisionImpact

pub data CapabilityEvidenceLevel : Type 0 where
  high medium low none_found unknown : CapabilityEvidenceLevel

pub data ChangeClassification : Type 0 where
  capability_addition capability_removal control_change autonomy_facet_change : ChangeClassification
  availability_lifecycle_change architecture_change model_change : ChangeClassification
  agent_addition agent_removal permission_change trigger_change : ChangeClassification
  approval_change benchmark_result_change evidence_status_change : ChangeClassification
  documentation_deprecation not_material : ChangeClassification

pub data EvidenceStatusChangeSubtype : Type 0 where
  independent_validation_added evidence_maturity_changed : EvidenceStatusChangeSubtype
  evidence_contradiction_added : EvidenceStatusChangeSubtype

pub data ReviewStatus : Type 0 where
  pending confirmed rejected : ReviewStatus

pub data EditorialRisk : Type 0 where
  low medium high : EditorialRisk

pub data DailyStatus : Type 0 where
  material_changes no_reviewed_content no_material_change : DailyStatus
  no_confirmed_material_change review_pending : DailyStatus

pub AvailabilityState-discrete : Discrete AvailabilityState
AvailabilityState-discrete = hlevel

unfoldable pub SubjectType-discrete : Discrete SubjectType
SubjectType-discrete = hlevel

pub ClaimPurpose-discrete : Discrete ClaimPurpose
ClaimPurpose-discrete = hlevel

pub HumanGate-discrete : Discrete HumanGate
HumanGate-discrete = hlevel

unfoldable pub ChangeClassification-discrete : Discrete ChangeClassification
ChangeClassification-discrete = hlevel
