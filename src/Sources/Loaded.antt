-- ===== src/Sources/Loaded.antt =====
-- What loading the registry establishes, and what the sources that it admits may do.
use agentic_sec_blog_publish.Prelude.{
  ◌≡◌, subst, inl, inr, String, true, false, Option, List, [], ◌∷◌, All, mem-All, Result-cases, ok,
  arith,
}
use agentic_sec_blog_publish.Models.Vocabulary.{output, self, approved}
use agentic_sec_blog_publish.Models.Sources.{Source, approval_is_required}
use agentic_sec_blog_publish.Sources.{
  Urls, relocated, validate_all, from_yaml, get, can_be_independent, can_contribute_evidence,
}
use agentic_sec_blog_publish.Sources.Access.{get-mem}

-- The trust boundary: what holds of each source of a loaded registry.
pub record Governed (s : Source) : Type 0 where
  pub only_approved : s.enabled ≡ true → s.status ≡ approved
  pub self_dependent : s.trust_class ≡ self → s.policy.usable_as_independent_evidence ≡ false
  pub output_is_self : s.role ≡ output → s.trust_class ≡ self
  pub output_states_nothing :
      s.role ≡ output → (s.policy.allowed_claim_types ≡ []) × (s.policy.allowed_claim_purposes ≡ [])

approval_is_required-Governed :
    (s t : Source) → approval_is_required s ≡ ok t → (s ≡ t) × Governed s
unfolding approval_is_required
approval_is_required-Governed s t h = (
  ground arith,
  record {
    only_approved = λ e. ground arith;
    self_dependent = λ e. ground arith;
    output_is_self = λ e. ground arith;
    output_states_nothing = λ e. (ground arith, ground arith);
  },
)

validate_all-Governed :
    (items sources : List Source) → validate_all items ≡ ok sources → All Governed sources
unfolding validate_all
validate_all-Governed [] sources h =
    subst (All Governed) (let e : [] ≡ sources = ground arith in e) tt
validate_all-Governed (x ∷ xs) sources h = elim (Result-cases (approval_is_required x)) [
  | inr (y, e) ↦ absurd (let k = rw e at h in ground arith)
  | inl (t, e) ↦
      let k = rw e at h in
      elim (Result-cases (validate_all xs)) [
        | inr (y, r) ↦ absurd (ground arith)
        | inl (rest, r) ↦
            let g = approval_is_required-Governed x t e in
            let same : t ∷ rest ≡ sources = ground arith in
            subst (All Governed) same (subst Governed g.0 g.1, validate_all-Governed xs rest r)
      ]
]

pub from_yaml-Governed :
    (urls : Urls) (base : Option String) (items sources : List Source)
    → from_yaml urls base items ≡ ok sources
    → All Governed sources
unfolding from_yaml
from_yaml-Governed urls base items sources h = elim (Result-cases (relocated urls base items)) [
  | inr (y, e) ↦ absurd (let k = rw e at h in ground arith)
  | inl (moved, e) ↦ validate_all-Governed moved sources (rw e at h)
]

-- A source of a loaded registry that counts as independent is an input that is not SELF, so that it
-- may contribute evidence.
pub from_yaml-independent :
    (urls : Urls) (base : Option String) (items sources : List Source) (id : String)
    → from_yaml urls base items ≡ ok sources
    → can_be_independent sources id ≡ ok true
    → can_contribute_evidence sources id ≡ ok true
unfolding can_be_independent can_contribute_evidence
from_yaml-independent urls base items sources id h k = elim (Result-cases (get sources id)) [
  | inr (y, e) ↦ absurd (let k' = rw e at k in ground arith)
  | inl (s, e) ↦
      let k' = rw e at k in
      let g =
        mem-All Governed s sources (from_yaml-Governed urls base items sources h)
          (get-mem sources id s e).0 in
      rw e (ground (arith, g.self_dependent, g.output_is_self))
]
