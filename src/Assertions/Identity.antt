-- ===== src/Assertions/Identity.antt =====
-- What `upsert` of src/agentic_security/assertions/service.py does to the ledger.
use agentic_sec_blog_publish.Prelude.{
  String, ◌≡◌, refl, subst, true, false, not, ◌&&◌, ◌==◌, eq_iff, eq_refl, Option, none, some, List,
  [], ◌∷◌, ◌++◌, inl, inr, arith, Bool-cases, Option-cases, find, find-append, find-update_where,
  find_sat, is_empty, is_some, is_member, is_member-without_repeats, is_member-append_last,
  is_member-append, Result, ok, err,
}
use agentic_sec_blog_publish.Models.Vocabulary.{disputed}
use agentic_sec_blog_publish.Models.Assertions.{
  Assertion, AssertionError, disputed_without_contradiction, assertion_key, enforce_semantics,
}
use agentic_sec_blog_publish.Assertions.{
  UpsertResult, AssertionLedger, Upsert, UpsertError, invalid_assertion, is_conditional, lookup,
  assign, observation_of, refreshed, assertion_of, Outcome, create, attach, upsert,
}

lookup-assign_same :
    (key : String) (a : Assertion) (entries : List (String × Assertion))
    → lookup key (assign key a entries) ≡ some a
unfolding assign
lookup-assign_same key a entries =
    elim (Option-cases (find (λ (e : String × Assertion). e.0 == key) entries)) [
      | inl e ↦
          rw (e, find-append (λ (e : String × Assertion). e.0 == key) entries ((key, a) ∷ []))
            (ground (arith, eq_refl key))
      | inr (x, e) ↦ rw e (
          rw
            (find-update_where (λ (e : String × Assertion). e.0 == key)
              (λ (e : String × Assertion). e.0 == key) (λ (e : String × Assertion). (e.0, a))
              entries (λ y. refl))
            (ground (arith, e, find_sat (λ (e : String × Assertion). e.0 == key) entries e)))
    ]

lookup-assign_other :
    (key other : String) (a : Assertion) (entries : List (String × Assertion))
    → (key == other) ≡ false
    → lookup other (assign key a entries) ≡ lookup other entries
unfolding assign
lookup-assign_other key other a entries h = elim (Bool-cases (is_some (lookup key entries))) [
  | inl e ↦ rw e (
      rw
        (find-update_where (λ (e : String × Assertion). e.0 == other)
          (λ (e : String × Assertion). e.0 == key) (λ (e : String × Assertion). (e.0, a)) entries
          (λ y. refl))
        (elim (Option-cases (find (λ (e : String × Assertion). e.0 == other) entries)) [
          | inl k ↦ rw k refl
          | inr (x, k) ↦ rw k (
              ground (
                arith,
                find_sat (λ (e : String × Assertion). e.0 == other) entries k,
                eq_iff x.0 other,
                eq_iff x.0 key,
                eq_iff key other,
              ))
        ]))
  | inr e ↦
      rw (e, find-append (λ (e : String × Assertion). e.0 == other) entries ((key, a) ∷ []))
        (ground arith)
]

-- What a successful `upsert` leaves, by the ledger before it.
pub record Attached (r : Upsert) (before : AssertionLedger) (res : UpsertResult)
    (after : AssertionLedger) : Type 0 where
  pub stored : lookup (assertion_key r.slots) after.by_key ≡ some res.assertion
  pub others :
      (other : String)
      → (assertion_key r.slots == other) ≡ false
      → lookup other after.by_key ≡ lookup other before.by_key
  pub is_new : res.created ≡ not (is_some (lookup (assertion_key r.slots) before.by_key))
  pub observed : after.observations ≡ before.observations ++ (res.observation ∷ [])
  pub refers : (res.observation).assertion_id ≡ (res.assertion).id
  pub evidenced : is_member r.evidence_id (res.assertion).evidence_ids ≡ true

abbrev IsAttached : Upsert → AssertionLedger → Outcome → Type 0
IsAttached r before (ok res, after) = Attached r before res after
IsAttached r before (err e, after) = Unit

enforce-same : (a b : Assertion) → enforce_semantics a ≡ ok b → a ≡ b
unfolding enforce_semantics
enforce-same a b h = ground arith

attach-IsAttached :
    (r : Upsert) (l : AssertionLedger) (existing : Option Assertion)
    → lookup (assertion_key r.slots) l.by_key ≡ existing
    → IsAttached r l (
        attach r
          (observation_of r existing)
          existing
          (record l { observations = l.observations ++ (observation_of r existing ∷ []) }))
attach-IsAttached r l (some existing) h = record {
  stored = lookup-assign_same (assertion_key r.slots) (refreshed r existing) l.by_key;
  others = λ other k.
      lookup-assign_other (assertion_key r.slots) other (refreshed r existing) l.by_key k;
  is_new = rw h refl;
  observed = refl;
  refers = refl;
  evidenced =
      rw (is_member-without_repeats r.evidence_id (existing.evidence_ids ++ (r.evidence_id ∷ [])))
        (is_member-append_last r.evidence_id existing.evidence_ids);
}
attach-IsAttached r l none h = created (enforce_semantics (assertion_of r)) refl
  where
    created :
        (made : Result AssertionError Assertion)
        → enforce_semantics (assertion_of r) ≡ made
        → IsAttached r l (
            create r
              (observation_of r none)
              made
              (record l { observations = l.observations ++ (observation_of r none ∷ []) }))
    created (err e) k = tt
    created (ok a) k =
        subst
          (λ (b : Assertion). IsAttached r l (
            create r (observation_of r none) (ok b)
              (record l { observations = l.observations ++ (observation_of r none ∷ []) })))
          (enforce-same (assertion_of r) a k)
          (record {
            stored = lookup-assign_same (assertion_key r.slots) (assertion_of r) l.by_key;
            others = λ other q.
                lookup-assign_other (assertion_key r.slots) other (assertion_of r) l.by_key q;
            is_new = rw h refl;
            observed = refl;
            refers = refl;
            evidenced = ground (arith, eq_refl r.evidence_id);
          })

upsert-IsAttached : (r : Upsert) (l : AssertionLedger) → IsAttached r l (upsert r l)
unfolding upsert
upsert-IsAttached r l =
    elim (Bool-cases (is_conditional r.state && is_empty (r.scope).conditions)) [
      | inl e ↦ rw e tt
      | inr e ↦ rw e (attach-IsAttached r l (lookup (assertion_key r.slots) l.by_key) refl)
    ]

-- When `upsert` succeeds, the key of the slots stands for the assertion it returns and every other
-- key for what it stood for; `created` says that the key was free; one observation was appended,
-- which refers to that assertion; and the evidence is among the assertion's.
pub upsert-Attached :
    (r : Upsert) (before after : AssertionLedger) (res : UpsertResult)
    → upsert r before ≡ (ok res, after)
    → Attached r before res after
upsert-Attached r before after res h = subst (IsAttached r before) h (upsert-IsAttached r before)

-- `upsert` of slots whose key is taken keeps the assertion's id, statement, state, slots and
-- contradicting evidence, whatever the words of the new statement, drops none of its evidence, and
-- marks the observation as a paraphrase exactly when the statements differ.
pub upsert_known :
    (r : Upsert) (before after : AssertionLedger) (res : UpsertResult) (existing : Assertion)
    → lookup (assertion_key r.slots) before.by_key ≡ some existing
    → upsert r before ≡ (ok res, after)
    → ((res.assertion).id ≡ existing.id)
      × ((res.assertion).statement ≡ existing.statement)
      × ((res.assertion).state ≡ existing.state)
      × ((res.assertion).slots ≡ existing.slots)
      × ((res.assertion).contradicting_evidence_ids ≡ existing.contradicting_evidence_ids)
      × ((id : String)
          → is_member id existing.evidence_ids ≡ true
          → is_member id (res.assertion).evidence_ids ≡ true)
      × ((res.observation).is_paraphrase ≡ not (existing.statement == r.statement))
unfolding upsert
upsert_known r before after res existing known h =
    elim (Bool-cases (is_conditional r.state && is_empty (r.scope).conditions)) [
      | inl e ↦ absurd (no_error refl (rw e at h))
      | inr e ↦
          rw (← result_of refl (rw (e, known) at h)) (refl, refl, refl, refl, refl, kept, refl)
    ]
  where
    no_error :
        {x y : AssertionLedger} {e : UpsertError} {out : Outcome}
        → out ≡ (err e, x)
        → out ≡ (ok res, y)
        → ⊥
    no_error k l = cc

    result_of :
        {a : UpsertResult} {x y : AssertionLedger} {out : Outcome}
        → out ≡ (ok a, x)
        → out ≡ (ok res, y)
        → a ≡ res
    result_of k l = cc

    kept :
        (id : String)
        → is_member id existing.evidence_ids ≡ true
        → is_member id (refreshed r existing).evidence_ids ≡ true
    kept id k =
        rw (is_member-without_repeats id (existing.evidence_ids ++ (r.evidence_id ∷ [])))
          (is_member-append id existing.evidence_ids (r.evidence_id ∷ []) k)

-- A DISPUTED assertion under a free key is refused, and yet its observation stays in the ledger,
-- while no assertion was stored under the key.
pub upsert_refused :
    (r : Upsert) (before : AssertionLedger)
    → lookup (assertion_key r.slots) before.by_key ≡ none
    → r.state ≡ disputed
    → ((upsert r before).0 ≡ err (invalid_assertion disputed_without_contradiction))
      × (lookup (assertion_key r.slots) ((upsert r before).1).by_key ≡ none)
      × (((upsert r before).1).observations ≡ before.observations ++ (observation_of r none ∷ []))
unfolding upsert enforce_semantics
upsert_refused r before free d = rw (d, free, eq_refl (assertion_key r.slots)) (refl, free, refl)
