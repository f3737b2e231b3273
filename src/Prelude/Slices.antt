-- ===== src/Prelude/Slices.antt =====
-- Texts as sequences of code points: their length, and Python's slices `text[first:last]`.
use Prim.Native.Nat.{ℕ, zero, suc, ◌-◌, ◌≤◌}
use Prim.Native.Char.{Char}
use Prim.Native.String.{String, [] as []ᵗ, ◌∷◌ as ◌∷ᵗ◌}
use mathlib.Core.Path.{◌≡◌, refl, ap}
use mathlib.Core.List.{List, [], ◌∷◌}
use mathlib.Core.Bool.{Bool, ◌&&◌}
use text.Mathlib.Text.{◌==◌}
use agentic_sec_blog_publish.Prelude.Tests.{leb}
use native.Mathlib.Omega.{arith}
use agentic_sec_blog_publish.Prelude.Lists.{length, take, drop}

unfoldable pub chars : String → List Char
chars []ᵗ = []
chars (c ∷ᵗ text) = c ∷ chars text

unfoldable pub text_of : List Char → String
text_of [] = []ᵗ
text_of (c ∷ cs) = c ∷ᵗ text_of cs

-- `len(text)`
abbrev pub text_length : String → ℕ
text_length text = length (chars text)

-- `xs[first:last]`, where `last` may lie beyond the end.
abbrev pub sublist {ℓ} : {A : Type ℓ} → ℕ → ℕ → List A → List A
sublist first last xs = take (last - first) (drop first xs)

-- `text[first:last]`
abbrev pub text_slice : ℕ → ℕ → String → String
text_slice first last text = text_of (sublist first last (chars text))

-- `text.endswith(suffix)`
abbrev pub ends_with : String → String → Bool
ends_with text suffix =
    leb (text_length suffix) (text_length text)
    && (text_of (drop (text_length text - text_length suffix) (chars text)) == suffix)

pub chars-text_of : (cs : List Char) → chars (text_of cs) ≡ cs
unfolding chars text_of
chars-text_of [] = refl
chars-text_of (c ∷ cs) = ap (λ l. c ∷ l) (chars-text_of cs)

module _ {ℓ} {A : Type ℓ} where
  pub length-take : (n : ℕ) (xs : List A) → n ≤ length xs → length (take n xs) ≡ n
  length-take zero xs h = refl
  length-take (suc n) [] h = omega arith
  length-take (suc n) (x ∷ xs) h = omega (arith, length-take n xs (omega arith))

  pub length-drop : (n : ℕ) (xs : List A) → length (drop n xs) ≡ length xs - n
  length-drop zero xs = omega arith
  length-drop (suc n) [] = omega arith
  length-drop (suc n) (x ∷ xs) = omega (arith, length-drop n xs)

  pub length-sublist :
      (first last : ℕ) (xs : List A)
      → last ≤ length xs
      → length (sublist first last xs) ≡ last - first
  length-sublist first last xs h =
      length-take (last - first) (drop first xs) (omega (arith, length-drop first xs))

pub text_length-text_slice :
    (first last : ℕ) (text : String)
    → last ≤ text_length text
    → text_length (text_slice first last text) ≡ last - first
text_length-text_slice first last text h =
    let cs = chars text in
    rw (chars-text_of (sublist first last cs)) (length-sublist first last cs h)
