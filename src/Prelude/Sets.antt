-- ===== src/Prelude/Sets.antt =====
-- Lists of texts as sets: membership in what the operations make of them.
use mathlib.Core.Path.{◌≡◌, refl, subst}
use mathlib.Core.Bool.{true, not, ◌&&◌, ◌||◌}
use mathlib.Core.Logic.{inl, inr}
use mathlib.Core.List.{List, [], ◌∷◌, ◌++◌}
use Prim.Native.String.{String}
use native.Mathlib.Omega.{arith}
use text.Mathlib.Text.{◌==◌}
use text.Mathlib.TextEquality.{eq_iff}
use text.Mathlib.TextPositions.{eq_refl}
use agentic_sec_blog_publish.Prelude.Tests.{Bool-cases}
use agentic_sec_blog_publish.Prelude.Lists.{select}
use agentic_sec_blog_publish.Prelude.Texts.{is_member, distinct_from, without_repeats}

pub same_as :
    (x line : String) (xs : List String) → (x == line) ≡ true → is_member x xs ≡ is_member line xs
same_as x line xs h =
    subst (λ y. is_member x xs ≡ is_member y xs) (ground (arith, eq_iff x line)) refl

pub is_member-distinct_from :
    (line : String) (seen xs : List String)
    → (is_member line seen || is_member line (distinct_from seen xs))
      ≡ (is_member line seen || is_member line xs)
is_member-distinct_from line seen [] = refl
is_member-distinct_from line seen (x ∷ xs) = elim (Bool-cases (is_member x seen)) [
  | inl e ↦ elim (Bool-cases (x == line)) [
    | inl k ↦ rw e (ground (arith, same_as x line seen k))
    | inr k ↦ rw e (ground (arith, is_member-distinct_from line seen xs))
  ]
  | inr e ↦ rw e (ground (arith, is_member-distinct_from line (x ∷ seen) xs))
]

pub is_member-select :
    (line : String) (others xs : List String)
    → is_member line (select (λ l. not (is_member l others)) xs)
      ≡ (is_member line xs && not (is_member line others))
is_member-select line others [] = refl
is_member-select line others (x ∷ xs) = elim (Bool-cases (x == line)) [
  | inl k ↦ ground (arith, same_as x line others k, is_member-select line others xs)
  | inr k ↦ ground (arith, is_member-select line others xs)
]

pub is_member-append_last : (x : String) (xs : List String) → is_member x (xs ++ (x ∷ [])) ≡ true
is_member-append_last x [] = ground (arith, eq_refl x)
is_member-append_last x (y ∷ ys) = ground (arith, is_member-append_last x ys)

pub is_member-without_repeats :
    (x : String) (xs : List String) → is_member x (without_repeats xs) ≡ is_member x xs
is_member-without_repeats x xs = is_member-distinct_from x [] xs

pub is_member-append :
    (x : String) (xs ys : List String) → is_member x xs ≡ true → is_member x (xs ++ ys) ≡ true
is_member-append x [] ys h = absurd (ground arith)
is_member-append x (y ∷ xs) ys h = ground (arith, is_member-append x xs ys)
