-- ===== src/Derivations/Age.antt =====
-- `derive_freshness` of src/agentic_security/derivations.py.
pub mod Decay
use agentic_sec_blog_publish.Prelude.{ℕ, ◌-◌, ◌*◌, leb, if◌then◌else◌}
use agentic_sec_blog_publish.Models.Vocabulary.{
  Freshness, fresh, aging, stale, revalidation_required,
}

-- `timedelta(days=n)`, in microseconds.
abbrev pub days : ℕ → ℕ
days n = n * 86_400_000_000

-- A verification in the future gives Python a negative age; here it gives 0, which is as fresh.
unfoldable pub derive_freshness : (last_verified_at now : ℕ) → Freshness
derive_freshness last_verified_at now =
    let age = now - last_verified_at in
    if leb age (days 30)
    then fresh
    else if leb age (days 90)
    then aging
    else if leb age (days 180)
    then stale
    else revalidation_required
