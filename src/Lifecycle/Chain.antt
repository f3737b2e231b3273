-- ===== src/Lifecycle/Chain.antt =====
-- What the histories that `append_event` accepts look like.
use agentic_sec_blog_publish.Prelude.{
  ℕ, ◌+◌, ◌≤◌, ◌<◌, ◌≡◌, sym, ◌∙◌, subst, append-nil, append_assoc, Result-cases, ◌≢◌, ◌⊎◌, ◌↔◌,
  inl, inr, true, eq_iff, List, [], ◌∷◌, ◌++◌, arith, length, All, All-imp, ok,
}
use agentic_sec_blog_publish.Models.Vocabulary.{
  AvailabilityState, private_preview, limited_public_preview, public_preview, ga, deprecated,
}
use agentic_sec_blog_publish.Models.Assertions.{LifecycleEvent}
use agentic_sec_blog_publish.Lifecycle.{
  allowed, entity_type, entity_id, validate_after, validate_transition, append_event, append_all,
}

-- How far along its life a product is.
abbrev pub rank : AvailabilityState → ℕ
rank AvailabilityState.unknown = 0
rank private_preview = 1
rank limited_public_preview = 2
rank public_preview = 3
rank ga = 4
rank deprecated = 5

-- A transition is allowed exactly when nothing was known before, or when it leads further on.
pub allowed_iff :
    (a b : AvailabilityState)
    → (allowed a b ≡ true) ↔ ((a ≡ AvailabilityState.unknown) ⊎ (rank a < rank b))
unfolding allowed
allowed_iff a b = ground arith

-- `b` may stand after `a` in one history.
pub record Follows (a b : LifecycleEvent) : Type 0 where
  pub same_type : entity_type a ≡ entity_type b
  pub same_id : entity_id a ≡ entity_id b
  pub further : (a.state ≡ AvailabilityState.unknown) ⊎ (rank a.state < rank b.state)
  pub later : a.retrieved_at ≤ b.retrieved_at

validate_after-Follows : (a b : LifecycleEvent) → validate_after a b ≡ ok tt → Follows a b
unfolding validate_after
validate_after-Follows a b h = ground (
  arith,
  eq_iff (entity_type a) (entity_type b),
  eq_iff (entity_id a) (entity_id b),
  allowed_iff a.state b.state,
)

abbrev pub IsChain : List LifecycleEvent → Type 0
IsChain [] = Unit
IsChain (e ∷ []) = Unit
IsChain (a ∷ b ∷ es) = Follows a b × IsChain (b ∷ es)

pub IsChain-snoc :
    (es : List LifecycleEvent) (e : LifecycleEvent)
    → IsChain es
    → validate_transition es e ≡ ok tt
    → IsChain (es ++ (e ∷ []))
unfolding validate_transition
IsChain-snoc [] e c h = tt
IsChain-snoc (a ∷ []) e c h = (validate_after-Follows a e h, tt)
IsChain-snoc (a ∷ b ∷ es) e c h = (c.0, IsChain-snoc (b ∷ es) e c.1 h)

-- `a` stands somewhere before `b`.
pub record Before (a b : LifecycleEvent) : Type 0 where
  pub same_type : entity_type a ≡ entity_type b
  pub same_id : entity_id a ≡ entity_id b
  pub no_return : rank a.state ≤ rank b.state
  pub later : a.retrieved_at ≤ b.retrieved_at

Follows-Before : {a b : LifecycleEvent} → Follows a b → Before a b
Follows-Before f = record {
  same_type = f.same_type;
  same_id = f.same_id;
  no_return = ground (arith, f.further);
  later = f.later;
}

Before-trans : {a b c : LifecycleEvent} → Before a b → Before b c → Before a c
Before-trans f g = record {
  same_type = f.same_type ∙ g.same_type;
  same_id = f.same_id ∙ g.same_id;
  no_return = omega arith;
  later = omega arith;
}

abbrev pub IsOrdered : List LifecycleEvent → Type 0
IsOrdered [] = Unit
IsOrdered (a ∷ es) = All (Before a) es × IsOrdered es

IsChain-IsOrdered : (es : List LifecycleEvent) → IsChain es → IsOrdered es
IsChain-IsOrdered [] c = tt
IsChain-IsOrdered (a ∷ []) c = (tt, tt)
IsChain-IsOrdered (a ∷ b ∷ es) c =
    let rest = IsChain-IsOrdered (b ∷ es) c.1 in
    let first = Follows-Before c.0 in
    ((first, All-imp es (λ e k. Before-trans first k) rest.0), rest)

append_all-IsChain :
    (events history final : List LifecycleEvent)
    → append_all history events ≡ ok final
    → IsChain history
    → (final ≡ history ++ events) × IsChain final
unfolding append_all append_event
append_all-IsChain [] history final h c =
    let e : history ≡ final = ground arith in (sym e ∙ sym (append-nil history), subst IsChain e c)
append_all-IsChain (e ∷ events) history final h c =
    elim (Result-cases (validate_transition history e)) [
      | inr (x, bad) ↦ absurd (ground arith)
      | inl (u, good) ↦
          let k : append_all (history ++ (e ∷ [])) events ≡ ok final = rw good at h in
          let r =
            append_all-IsChain events (history ++ (e ∷ [])) final k
              (IsChain-snoc history e c good) in
          (r.0 ∙ append_assoc history (e ∷ []) events, r.1)
    ]

-- What a ledger that starts empty accepted is the events it was given, and of any two of them the
-- later is of the same entity, was not retrieved earlier, and does not fall back in the life cycle.
pub append_all-IsOrdered :
    (events final : List LifecycleEvent)
    → append_all [] events ≡ ok final
    → (final ≡ events) × IsOrdered final
append_all-IsOrdered events final h =
    let r = append_all-IsChain events [] final h tt in (r.0, IsChain-IsOrdered final r.1)

IsChain-length :
    (e : LifecycleEvent) (es : List LifecycleEvent)
    → All (λ x. x.state ≢ AvailabilityState.unknown) (e ∷ es)
    → IsChain (e ∷ es)
    → rank e.state + length es ≤ 5
IsChain-length e [] known c = rank-le e.state
  where
    rank-le : (s : AvailabilityState) → rank s + 0 ≤ 5
    rank-le s = ground arith
IsChain-length e (b ∷ es) known c = elim c.0.further [
  | inl x ↦ absurd (known.0 x)
  | inr less ↦ omega (arith, IsChain-length b es known.1 c.1)
]

-- A history with no UNKNOWN state has at most five events.
pub append_all-length :
    (events final : List LifecycleEvent)
    → append_all [] events ≡ ok final
    → All (λ e. e.state ≢ AvailabilityState.unknown) events
    → length final ≤ 5
append_all-length events final h known =
    let r = append_all-IsChain events [] final h tt in
    bound final (subst (All (λ e. e.state ≢ AvailabilityState.unknown)) (sym r.0) known) r.1
  where
    known_rank : (s : AvailabilityState) → s ≢ AvailabilityState.unknown → 1 ≤ rank s
    known_rank s h = ground arith

    bound :
        (es : List LifecycleEvent)
        → All (λ e. e.state ≢ AvailabilityState.unknown) es
        → IsChain es
        → length es ≤ 5
    bound [] k c = omega arith
    bound (e ∷ es) k c = omega (arith, IsChain-length e es k c, known_rank e.state k.0)
