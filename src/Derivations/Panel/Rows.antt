-- ===== src/Derivations/Panel/Rows.antt =====
-- What the rows of the capability panel establish.
use agentic_sec_blog_publish.Prelude.{
  ◌≤◌, ◌≡◌, ◌↔◌, inl, inr, true, false, some, List, String, arith, select, is_empty, Bool-cases,
  Option-cases, ◌⊎◌, select_witness, Memᴰ,
}
use agentic_sec_blog_publish.Models.Vocabulary.{
  CapabilityEvidenceLevel, IndependenceDesignation, ClaimPurpose,
}
use agentic_sec_blog_publish.Models.Evidence.{Evidence, IndependenceFacets}
use agentic_sec_blog_publish.Derivations.Independence.{
  undisclosed_funding, undisclosed_trade, vendor_self_trade, paid_funding, derive_independence,
}
use agentic_sec_blog_publish.Derivations.Panel.{
  maturity_level, is_independent_validation, derive_capability_evidence_panel,
}

-- An evaluation is INDEPENDENT exactly when both relationships are disclosed, neither ties the
-- evaluator to the vendor, the vendor had no part in it, and the method can be reproduced.
pub independent_iff :
    (f : IndependenceFacets)
    → (derive_independence f ≡ IndependenceDesignation.independent) ↔ (
        (undisclosed_funding f.funding_relationship ≡ false)
        × (undisclosed_trade f.commercial_relationship ≡ false)
        × (vendor_self_trade f.commercial_relationship ≡ false)
        × (paid_funding f.funding_relationship ≡ false)
        × (f.vendor_selected_methodology ≡ false)
        × (f.vendor_operated_test ≡ false)
        × (f.vendor_reviewed_before_publication ≡ false)
        × (f.reproducible_method ≡ true))
unfolding derive_independence
independent_iff f = ground arith

-- What an item must be to raise the row of independent validation.
pub record Validates (e : Evidence) (f : IndependenceFacets) : Type 0 where
  pub purpose : e.claim_purpose ≡ ClaimPurpose.independent_validation
  pub matured : 3 ≤ maturity_level e.maturity
  pub facets : e.independence_facets ≡ some f
  pub independent : derive_independence f ≡ IndependenceDesignation.independent

Validates-of :
    (e : Evidence) → is_independent_validation e ≡ true → (f : IndependenceFacets) × Validates e f
Validates-of e h = elim (Option-cases e.independence_facets) [
  | inl none_given ↦ absurd (ground arith)
  | inr (f, given) ↦ (
    f,
    record {
      purpose = ground arith;
      matured = ground arith;
      facets = given;
      independent = ground arith;
    },
  )
]

-- The row of independent validation is HIGH only if some item is a validation at maturity E3 or
-- more by an evaluator who is independent; with no such item it is NONE_FOUND.
pub panel-validated :
    (capability_id : String) (items : List Evidence) (methodology_version : String)
    → let level =
        (derive_capability_evidence_panel capability_id items
          methodology_version).independent_validation in
      (level ≡ CapabilityEvidenceLevel.none_found)
      ⊎ ((level ≡ CapabilityEvidenceLevel.high)
          × ((e : Evidence) × Memᴰ e items × ((f : IndependenceFacets) × Validates e f)))
unfolding derive_capability_evidence_panel
panel-validated c items m = elim (Bool-cases (is_empty (select is_independent_validation items))) [
  | inl e ↦ inl (rw e)
  | inr e ↦
      let (x, member, valid) = select_witness is_independent_validation items e in
      inr (rw e, (x, member, Validates-of x valid))
]
