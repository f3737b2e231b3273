-- ===== src/Derivations/Age/Decay.antt =====
-- Freshness only decays, and changes at exactly 30, 90 and 180 days.
use agentic_sec_blog_publish.Prelude.{ℕ, ◌+◌, ◌≤◌, ◌↔◌, arith}
use agentic_sec_blog_publish.Models.Vocabulary.{
  Freshness, fresh, aging, stale, revalidation_required,
}
use agentic_sec_blog_publish.Derivations.Age.{days, derive_freshness}

abbrev pub staleness : Freshness → ℕ
staleness fresh = 0
staleness aging = 1
staleness stale = 2
staleness revalidation_required = 3

-- Seen later, the same verification is never fresher.
pub derive_freshness_mono :
    (verified now later : ℕ)
    → now ≤ later
    → staleness (derive_freshness verified now) ≤ staleness (derive_freshness verified later)
unfolding derive_freshness
derive_freshness_mono verified now later h = ground arith

-- An assertion is FRESH up to and including 30 days after its verification, at most AGING up to
-- and including 90 days, and at most STALE up to and including 180 days.
pub derive_freshness-thresholds :
    (verified now : ℕ)
    → ((staleness (derive_freshness verified now) ≤ 0) ↔ (now ≤ verified + days 30))
      × ((staleness (derive_freshness verified now) ≤ 1) ↔ (now ≤ verified + days 90))
      × ((staleness (derive_freshness verified now) ≤ 2) ↔ (now ≤ verified + days 180))
unfolding derive_freshness
derive_freshness-thresholds verified now = ground arith
