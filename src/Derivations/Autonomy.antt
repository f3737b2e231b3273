-- ===== src/Derivations/Autonomy.antt =====
-- `derive_autonomy_label` of src/agentic_security/derivations.py.
pub mod Labels
use agentic_sec_blog_publish.Prelude.{String, Bool, true, false, not, ◌&&◌, if◌then◌else◌, every}
use agentic_sec_blog_publish.Models.Vocabulary.{Trigger, PermissionScope, HumanGate}
use agentic_sec_blog_publish.Models.Autonomy.{AutonomyAssessment}

abbrev pub is_continuous : Trigger → Bool
is_continuous Trigger.continuous = true
is_continuous _ = false

abbrev pub is_human_initiated : Trigger → Bool
is_human_initiated Trigger.human_initiated = true
is_human_initiated _ = false

abbrev pub is_read_only : PermissionScope → Bool
is_read_only PermissionScope.read_only = true
is_read_only _ = false

-- `in {SCOPED_WRITE, BROAD_WRITE}`
abbrev pub can_write : PermissionScope → Bool
can_write PermissionScope.scoped_write = true
can_write PermissionScope.broad_write = true
can_write _ = false

-- `in {NONE, NOTIFY_ONLY}`
abbrev pub is_ungated : HumanGate → Bool
is_ungated HumanGate.none_given = true
is_ungated HumanGate.notify_only = true
is_ungated _ = false

abbrev pub is_pre_action : HumanGate → Bool
is_pre_action HumanGate.pre_action = true
is_pre_action _ = false

-- The texts "A0" to "A4".
pub data AutonomyLabel : Type 0 where
  a0 a1 a2 a3 a4 : AutonomyLabel

-- `ungated` says that all gates are in {NONE, NOTIFY_ONLY}.
unfoldable pub label_of : Trigger → PermissionScope → HumanGate → (ungated : Bool) → AutonomyLabel
label_of trigger permission gate ungated =
    if is_continuous trigger && (not (is_read_only permission) && ungated)
    then a4
    else if not (is_human_initiated trigger)
    then a3
    else if is_human_initiated trigger && can_write permission
    then a2
    else if is_human_initiated trigger && is_read_only permission
    then (if is_pre_action gate then a0 else a1)
    else a1

abbrev pub all_ungated : AutonomyAssessment → Bool
all_ungated a =
    is_ungated (a.human_gate).value && every (λ g. is_ungated (g.1).value) a.action_human_gates

unfoldable pub derive_autonomy_label : AutonomyAssessment → AutonomyLabel
unfolding label_of
derive_autonomy_label a =
    label_of (a.trigger).value (a.permission_scope).value (a.human_gate).value (all_ungated a)
