-- ===== src/Trends.antt =====
-- src/agentic_security/trend_primitives/queries.py. A dict is the list of its entries, in the order in
-- which its keys came; `strftime("%Y-%m")` is an argument.
pub mod Counts
use agentic_sec_blog_publish.Prelude.{
  ℕ, ◌+◌, ◌-◌, ◌/◌, String, Bool, true, false, ◌==◌, ◌&&◌, not, leb, Option, none, some, List, [],
  ◌∷◌, ◌++◌, map, select, head?, last?, is_some, if◌then◌else◌, order_by, text_leb,
}
use agentic_sec_blog_publish.Collection.{ℤ, pos, negsuc}
use agentic_sec_blog_publish.Models.Vocabulary.{
  AvailabilityState, private_preview, limited_public_preview, public_preview, ga,
}
use agentic_sec_blog_publish.Models.Assertions.{LifecycleEvent}
use agentic_sec_blog_publish.Models.Changes.{MaterialChange}
use agentic_sec_blog_publish.Editorial.{impact_text}

abbrev microseconds_per_day : ℕ
microseconds_per_day = 86400000000

-- `(later - earlier).days`, which is rounded down.
unfoldable days_between : (later earlier : ℕ) → ℤ
days_between later earlier =
    if leb earlier later
    then pos ((later - earlier) / microseconds_per_day)
    else negsuc ((earlier - later - 1) / microseconds_per_day)

abbrev is_preview : AvailabilityState → Bool
is_preview private_preview = true
is_preview limited_public_preview = true
is_preview public_preview = true
is_preview _ = false

abbrev is_ga : AvailabilityState → Bool
is_ga ga = true
is_ga _ = false

-- `by_system.setdefault(id, []).append(event)`
abbrev filed :
    String
    → LifecycleEvent
    → List (String × List LifecycleEvent)
    → List (String × List LifecycleEvent)
filed id event [] = (id, event ∷ []) ∷ []
filed id event ((key, history) ∷ rest) =
    if key == id
    then (key, history ++ (event ∷ [])) ∷ rest
    else (key, history) ∷ filed id event rest

-- `if event.system_id`
abbrev filed_if :
    Option String
    → LifecycleEvent
    → List (String × List LifecycleEvent)
    → List (String × List LifecycleEvent)
filed_if none event systems = systems
filed_if (some id) event systems = if id == "" then systems else filed id event systems

abbrev by_system :
    List LifecycleEvent → List (String × List LifecycleEvent) → List (String × List LifecycleEvent)
by_system [] systems = systems
by_system (event ∷ events) systems = by_system events (filed_if event.system_id event systems)

abbrev effective_time : Option LifecycleEvent → Option ℕ
effective_time none = none
effective_time (some event) = event.effective_at

abbrev dated : (AvailabilityState → Bool) → List LifecycleEvent → List LifecycleEvent
dated in_state history = select (λ e. in_state e.state && is_some e.effective_at) history

abbrev velocity_of : String → Option ℕ → Option ℕ → List (String × ℤ) → List (String × ℤ)
velocity_of id (some preview) (some available) rest = (id, days_between available preview) ∷ rest
velocity_of id _ _ rest = rest

abbrev velocities : List (String × List LifecycleEvent) → List (String × ℤ)
velocities [] = []
velocities ((id, history) ∷ rest) =
    velocity_of id (effective_time (head? (dated is_preview history)))
      (effective_time (last? (dated is_ga history))) (velocities rest)

unfoldable preview_to_ga_velocity : List LifecycleEvent → List (String × ℤ)
unfolding days_between
preview_to_ga_velocity events = velocities (by_system events [])

abbrev pub counted : String → List (String × ℕ) → List (String × ℕ)
counted key [] = (key, 1) ∷ []
counted key ((k, n) ∷ rest) = if k == key then (k, n + 1) ∷ rest else (k, n) ∷ counted key rest

abbrev pub counted_all : List String → List (String × ℕ) → List (String × ℕ)
counted_all [] counts = counts
counted_all (key ∷ keys) counts = counted_all keys (counted key counts)

abbrev pub key_leb : String × ℕ → String × ℕ → Bool
key_leb a b = text_leb a.0 b.0

-- `dict(sorted(Counter(keys).items()))`
unfoldable pub counter : List String → List (String × ℕ)
counter keys = order_by key_leb (counted_all keys [])

-- The impacts of the confirmed changes.
abbrev pub confirmed_impacts : List MaterialChange → List String
confirmed_impacts [] = []
confirmed_impacts (change ∷ changes) =
    if change.human_confirmed
    then map impact_text change.decision_impacts ++ confirmed_impacts changes
    else confirmed_impacts changes

unfoldable pub decision_impact_frequency : List MaterialChange → List (String × ℕ)
unfolding counter
decision_impact_frequency changes = counter (confirmed_impacts changes)

unfoldable new_agents_by_month :
    (month : ℕ → String) → (first_observed_at : List ℕ) → List (String × ℕ)
unfolding counter
new_agents_by_month month first_observed_at = counter (map month first_observed_at)

unfoldable observed_on_or_before : (value cutoff : ℕ) → Bool
observed_on_or_before value cutoff = leb value cutoff
