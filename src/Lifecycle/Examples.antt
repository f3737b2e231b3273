-- ===== src/Lifecycle/Examples.antt =====
-- The laws of the life cycle at a concrete history.
use agentic_sec_blog_publish.Prelude.{ℕ, ◌≡◌, refl, none, some, List, [], ◌∷◌, ok}
use agentic_sec_blog_publish.Models.Vocabulary.{
  AvailabilityState, private_preview, public_preview, ga, SourceClass,
}
use agentic_sec_blog_publish.Models.Assertions.{LifecycleEvent}
use agentic_sec_blog_publish.Lifecycle.{append_all}
use agentic_sec_blog_publish.Lifecycle.Chain.{append_all-IsOrdered, IsOrdered}

abbrev event : AvailabilityState → ℕ → LifecycleEvent
event state at = record {
  id = "L1";
  system_id = some "SYS-1";
  agent_id = none;
  state = state;
  modifiers = record { regions = []; conditions = [] };
  effective_at = none;
  evidence_id = "EV-1";
  source_class = SourceClass.p1;
  retrieved_at = at;
  rationale = "announced";
}

abbrev history : List LifecycleEvent
history = event private_preview 1 ∷ event public_preview 5 ∷ event ga 9 ∷ []

accepted : append_all [] history ≡ ok history
unfolding append_all
accepted = refl

append_all-IsOrdered_example : (history ≡ history) × IsOrdered history
append_all-IsOrdered_example = append_all-IsOrdered history history accepted
