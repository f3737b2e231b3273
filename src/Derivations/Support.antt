-- ===== src/Derivations/Support.antt =====
-- `derive_support_confidence` and `provenance_independent_count` of
-- src/agentic_security/derivations.py.
pub mod Rubric
pub mod Provenance
use agentic_sec_blog_publish.Prelude.{
  ℕ, String, Bool, true, false, not, ◌&&◌, ◌||◌, List, [], ◌∷◌, ◌==◌, if◌then◌else◌, is_some,
  is_empty, any, select, length,
}
use agentic_sec_blog_publish.Models.Vocabulary.{
  SourceClass, EvidenceMaturity, SupportConfidence, Freshness, p1, p2, r1, r2, o1, i1, e0, fresh,
  aging, stale, revalidation_required,
}
use agentic_sec_blog_publish.Models.Evidence.{Evidence}

abbrev pub is_fresh : Freshness → Bool
is_fresh fresh = true
is_fresh _ = false

abbrev pub is_aging : Freshness → Bool
is_aging aging = true
is_aging _ = false

abbrev pub is_outdated : Freshness → Bool
is_outdated stale = true
is_outdated revalidation_required = true
is_outdated _ = false

abbrev pub is_p1 : SourceClass → Bool
is_p1 p1 = true
is_p1 _ = false

-- `in {P2, R1, R2, O1, I1}`
abbrev pub is_secondary_support : SourceClass → Bool
is_secondary_support p2 = true
is_secondary_support r1 = true
is_secondary_support r2 = true
is_secondary_support o1 = true
is_secondary_support i1 = true
is_secondary_support _ = false

abbrev pub is_e0 : EvidenceMaturity → Bool
is_e0 e0 = true
is_e0 _ = false

abbrev pub is_original : Evidence → Bool
is_original item = not (is_some item.derivative_of_evidence_id)

abbrev pub is_primary_proof : Evidence → Bool
is_primary_proof item = is_p1 item.source_class && not (is_e0 item.maturity)

abbrev pub supports_medium : Evidence → Bool
supports_medium item = is_secondary_support item.source_class

unfoldable pub derive_support_confidence :
    List Evidence → Freshness → (has_unresolved_contradiction : Bool) → SupportConfidence
derive_support_confidence items freshness contradicted =
    if contradicted || (is_outdated freshness || is_empty items)
    then SupportConfidence.low
    else if is_fresh freshness && any is_primary_proof (select is_original items)
    then SupportConfidence.high
    else if is_aging freshness || any supports_medium (select is_original items)
    then SupportConfidence.medium
    else SupportConfidence.low

-- `root_by_evidence.get(item.id, item.id)`
root_of : List (String × String) → String → String
root_of [] id = id
root_of ((key, root) ∷ rest) id = if key == id then root else root_of rest id

-- The set of a comprehension, as the list of its members.
as_set : List String → List String → List String
as_set seen [] = seen
as_set seen (x ∷ xs) = as_set (if any (λ y. y == x) seen then seen else x ∷ seen) xs

roots : List (String × String) → List Evidence → List String
roots root_by_evidence [] = []
roots root_by_evidence (item ∷ items) =
    let rest = roots root_by_evidence items in
    if is_original item then root_of root_by_evidence item.id ∷ rest else rest

unfoldable pub provenance_independent_count : List Evidence → List (String × String) → ℕ
unfolding root_of as_set roots
provenance_independent_count evidence root_by_evidence =
    length (as_set [] (roots root_by_evidence evidence))
