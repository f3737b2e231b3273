-- ===== src/Derivations/Autonomy/Labels.antt =====
-- What each autonomy label stands for.
use agentic_sec_blog_publish.Prelude.{◌≡◌, ◌⊎◌, ◌↔◌, Bool, true, false, arith}
use agentic_sec_blog_publish.Models.Vocabulary.{Trigger, PermissionScope, HumanGate}
use agentic_sec_blog_publish.Models.Autonomy.{AutonomyAssessment}
use agentic_sec_blog_publish.Derivations.Autonomy.{
  is_continuous, is_human_initiated, is_read_only, is_pre_action, a0, a3, a4, all_ungated, label_of,
  derive_autonomy_label,
}

label_of_iff :
    (t : Trigger) (p : PermissionScope) (g : HumanGate) (ungated : Bool)
    → let label = label_of t p g ungated in
      ((label ≡ a4) ↔ ((is_continuous t ≡ true) × (is_read_only p ≡ false) × (ungated ≡ true)))
      × (((label ≡ a3) ⊎ (label ≡ a4)) ↔ (is_human_initiated t ≡ false))
      × ((label ≡ a0)
          ↔ ((is_human_initiated t ≡ true) × (is_read_only p ≡ true) × (is_pre_action g ≡ true)))
unfolding label_of
label_of_iff t p g ungated = ground arith

-- A4 is given exactly to continuous operation with more than reading and no gate that a human must
-- pass, neither in general nor for any action; A3 or A4 exactly to what starts without a human; A0
-- exactly to what a human starts, only reads, and is gated before each action.
pub derive_autonomy_label_iff :
    (a : AutonomyAssessment)
    → let label = derive_autonomy_label a in
      let t = (a.trigger).value in
      let p = (a.permission_scope).value in
      ((label ≡ a4)
        ↔ ((is_continuous t ≡ true) × (is_read_only p ≡ false) × (all_ungated a ≡ true)))
      × (((label ≡ a3) ⊎ (label ≡ a4)) ↔ (is_human_initiated t ≡ false))
      × ((label ≡ a0) ↔ (
          (is_human_initiated t ≡ true)
          × (is_read_only p ≡ true)
          × (is_pre_action (a.human_gate).value ≡ true)))
unfolding derive_autonomy_label
derive_autonomy_label_iff a =
    label_of_iff (a.trigger).value (a.permission_scope).value (a.human_gate).value (all_ungated a)
