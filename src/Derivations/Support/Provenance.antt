-- ===== src/Derivations/Support/Provenance.antt =====
-- What the count of provenance roots counts.
use agentic_sec_blog_publish.Prelude.{
  ◌+◌, ◌≤◌, String, ◌≡◌, refl, false, List, [], ◌∷◌, arith, select, length,
}
use agentic_sec_blog_publish.Models.Evidence.{Evidence}
use agentic_sec_blog_publish.Derivations.Support.{
  is_original, as_set, roots, provenance_independent_count,
}

-- Derivative evidence adds nothing to the count.
pub provenance-derivative :
    (e : Evidence) (items : List Evidence) (root_by_evidence : List (String × String))
    → is_original e ≡ false
    → provenance_independent_count (e ∷ items) root_by_evidence
      ≡ provenance_independent_count items root_by_evidence
unfolding provenance_independent_count
provenance-derivative e items m h = rw h

length-as_set : (seen xs : List String) → length (as_set seen xs) ≤ length seen + length xs
unfolding as_set
length-as_set seen [] = omega arith
length-as_set seen (x ∷ xs) = ground (arith, length-as_set seen xs, length-as_set (x ∷ seen) xs)

length-roots :
    (m : List (String × String)) (items : List Evidence)
    → length (roots m items) ≡ length (select is_original items)
unfolding roots
length-roots m [] = refl
length-roots m (e ∷ items) = ground (arith, length-roots m items)

-- The count is at most the number of original items, whatever the roots.
pub provenance-le-originals :
    (items : List Evidence) (root_by_evidence : List (String × String))
    → provenance_independent_count items root_by_evidence ≤ length (select is_original items)
unfolding provenance_independent_count
provenance-le-originals items m =
    omega (arith, length-as_set [] (roots m items), length-roots m items)
