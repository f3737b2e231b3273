-- ===== src/Derivations/Support/Rubric.antt =====
-- What the support rubric gives, and how it moves with the evidence and with age.
use agentic_sec_blog_publish.Prelude.{
  ℕ, ◌≤◌, ◌≡◌, ◌↔◌, Bool, true, false, List, [], ◌∷◌, arith, any, select, any-select, All, Memᴰ,
  Bool-cases, inl, inr,
}
use agentic_sec_blog_publish.Models.Vocabulary.{SupportConfidence, Freshness, fresh}
use agentic_sec_blog_publish.Models.Evidence.{Evidence}
use agentic_sec_blog_publish.Derivations.Support.{
  is_original, is_primary_proof, supports_medium, derive_support_confidence,
}

abbrev pub confidence : SupportConfidence → ℕ
confidence SupportConfidence.low = 0
confidence SupportConfidence.medium = 1
confidence SupportConfidence.high = 2

-- HIGH takes exactly this: no open contradiction, fresh evidence, and an original primary source
-- above maturity E0.
pub support-high_iff :
    (items : List Evidence) (freshness : Freshness) (contradicted : Bool)
    → (derive_support_confidence items freshness contradicted ≡ SupportConfidence.high) ↔ (
        (contradicted ≡ false)
        × (freshness ≡ fresh)
        × (any is_primary_proof (select is_original items) ≡ true))
unfolding derive_support_confidence
support-high_iff [] freshness contradicted = ground arith
support-high_iff (e ∷ items) freshness contradicted = ground arith

any-kept :
    (p q : Evidence → Bool) (items more : List Evidence)
    → All (λ e. Memᴰ e more) items
    → any p (select q items) ≡ true
    → any p (select q more) ≡ true
any-kept p q [] more h k = absurd (ground arith)
any-kept p q (e ∷ items) more h k = elim (Bool-cases (q e)) [
  | inr n ↦ any-kept p q items more h.1 (rw n at k)
  | inl y ↦ elim (Bool-cases (p e)) [
    | inl z ↦ any-select p q e more h.0 y z
    | inr z ↦ any-kept p q items more h.1 (let j = rw y at k in rw z at j)
  ]
]

-- Evidence that contains all of other evidence never gives a lower confidence than it: for the same
-- freshness, and when the larger evidence has an open contradiction only if the smaller one has.
pub support_mono :
    (items more : List Evidence) (freshness : Freshness) (open_items open_more : Bool)
    → All (λ e. Memᴰ e more) items
    → (open_more ≡ true → open_items ≡ true)
    → confidence (derive_support_confidence items freshness open_items)
      ≤ confidence (derive_support_confidence more freshness open_more)
unfolding derive_support_confidence
support_mono [] more freshness open_items open_more h k = ground arith
support_mono (e ∷ items) [] freshness open_items open_more h k = elim h.0 [ ]
support_mono (e ∷ items) (x ∷ more) freshness open_items open_more h k =
    elim (Bool-cases open_items) [
      | inl c ↦ rw c (ground arith)
      | inr c ↦ ground (
        arith,
        any-kept is_primary_proof is_original (e ∷ items) (x ∷ more) h,
        any-kept supports_medium is_original (e ∷ items) (x ∷ more) h,
      )
    ]
