-- ===== src/Evidence/Limits.antt =====
-- Which evidence its class, and which source's policy, admits.
use agentic_sec_blog_publish.Prelude.{
  ℕ, ◌≤◌, ◌≡◌, ◌≢◌, ◌↔◌, true, ok, arith, List, Memᴰ, any-is_same_iff,
}
use agentic_sec_blog_publish.Models.Vocabulary.{
  EvidenceMaturity, e0, e1, e2, e3, e4, e5, s1, input, self, ClaimPurpose, ClaimPurpose-discrete,
}
use agentic_sec_blog_publish.Models.Sources.{Source}
use agentic_sec_blog_publish.Models.Evidence.{Evidence}
use agentic_sec_blog_publish.Evidence.{
  is_vendor_self, is_derivative, has_purpose, validate_evidence_classification,
  validate_evidence_purpose,
}

abbrev pub level : EvidenceMaturity → ℕ
level e0 = 0
level e1 = 1
level e2 = 2
level e3 = 3
level e4 = 4
level e5 = 5

pub record WithinLimits (e : Evidence) : Type 0 where
  pub vendor_self : is_vendor_self e.independence_facets ≡ true → level e.maturity ≤ 3
  pub derivative : is_derivative e.derivative_of_evidence_id ≡ true → level e.maturity ≤ 1
  pub secondary : e.source_class ≡ s1 → level e.maturity ≤ 1

-- Evidence passes the check on its class exactly when a vendor's own evidence is E3 at most, and
-- derivative and S1 evidence are E1 at most.
pub validate_evidence_classification_iff :
    (e : Evidence) → (validate_evidence_classification e ≡ ok tt) ↔ WithinLimits e
unfolding validate_evidence_classification
validate_evidence_classification_iff e = (
  λ h. record {
    vendor_self = λ k. ground (arith);
    derivative = λ k. ground arith;
    secondary = λ k. ground arith;
  },
  λ w. ground (arith, w.vendor_self, w.derivative, w.secondary),
)

has_purpose_iff :
    (p : ClaimPurpose) (ps : List ClaimPurpose) → (has_purpose p ps ≡ true) ↔ Memᴰ p ps
has_purpose_iff p ps = any-is_same_iff ClaimPurpose-discrete p ps

pub record Permits (e : Evidence) (s : Source) : Type 0 where
  pub is_input : s.role ≡ input
  pub not_self : s.trust_class ≢ self
  pub not_prohibited : ¬ Memᴰ e.claim_purpose s.policy.prohibited_claim_purposes
  pub is_allowed : Memᴰ e.claim_purpose s.policy.allowed_claim_purposes

-- Evidence passes the check on its purpose exactly when its source is an input, not SELF, and allows
-- the purpose without prohibiting it.
pub validate_evidence_purpose_iff :
    (e : Evidence) (s : Source) → (validate_evidence_purpose e s ≡ ok tt) ↔ Permits e s
unfolding validate_evidence_purpose
validate_evidence_purpose_iff e s =
    let no = has_purpose_iff e.claim_purpose s.policy.prohibited_claim_purposes in
    let yes = has_purpose_iff e.claim_purpose s.policy.allowed_claim_purposes in
    (
      λ h. record {
        is_input = ground arith;
        not_self = λ k. ground arith;
        not_prohibited = λ k. ground (arith, no.1 k);
        is_allowed = yes.0 (ground arith);
      },
      λ p. ground (arith, no.0, yes.1 p.is_allowed, p.is_input, p.not_self, p.not_prohibited),
    )
