-- ===== src/Prelude/Members.antt =====
-- Membership in a list of enumeration values: Python's `in`.
use mathlib.Core.Path.{◌≡◌, refl, ap}
use mathlib.Core.Bool.{Bool, true}
use mathlib.Core.Logic.{◌↔◌, inl, inr}
use mathlib.Core.List.{List, [], ◌∷◌, ◌++◌, Memᴰ}
use mathlib.Core.Option.{some}
use native.Mathlib.Omega.{arith}
use agentic_sec_blog_publish.Prelude.Tests.{is_same, is_same-eq, Bool-cases}
use agentic_sec_blog_publish.Prelude.Lists.{any, select, find, All, All-append}
use agentic_sec_blog_publish.Prelude.Rows.{find-All, All-Mem}

module _ {ℓ} {A : Type ℓ} (dec : Discrete A) where
  is_same_refl : (a : A) → is_same dec a a ≡ true
  is_same_refl a = ground arith

  pub any-Memᴰ : (a : A) (xs : List A) → any (is_same dec a) xs ≡ true → Memᴰ a xs
  any-Memᴰ a [] h = absurd (ground arith)
  any-Memᴰ a (x ∷ xs) h = elim (Bool-cases (is_same dec a x)) [
    | inl e ↦ Memᴰ.head (is_same-eq dec a x e)
    | inr e ↦ Memᴰ.tail (any-Memᴰ a xs (ground arith))
  ]

  pub Memᴰ-any : (a : A) (xs : List A) → Memᴰ a xs → any (is_same dec a) xs ≡ true
  Memᴰ-any a [] m = elim m [ ]
  Memᴰ-any a (x ∷ xs) (Memᴰ.head e) = ground (arith, e)
  Memᴰ-any a (x ∷ xs) (Memᴰ.tail m) = ground (arith, Memᴰ-any a xs m)

  pub any-is_same_iff : (a : A) (xs : List A) → (any (is_same dec a) xs ≡ true) ↔ Memᴰ a xs
  any-is_same_iff a xs = (any-Memᴰ a xs, Memᴰ-any a xs)

module _ {ℓ} {A : Type ℓ} where
  pub find-Memᴰ : (p : A → Bool) (xs : List A) (x : A) → find p xs ≡ some x → Memᴰ x xs
  find-Memᴰ p xs x h = find-All (λ y. Memᴰ y xs) p xs (All-Mem xs) h

  pub any_witness :
      (p : A → Bool) (xs : List A) → any p xs ≡ true → (x : A) × Memᴰ x xs × (p x ≡ true)
  any_witness p [] h = absurd (ground arith)
  any_witness p (x ∷ xs) h = elim (Bool-cases (p x)) [
    | inl e ↦ (x, Memᴰ.head refl, e)
    | inr e ↦ let r = any_witness p xs (ground arith) in (r.0, Memᴰ.tail r.1, r.2)
  ]

  pub select-append :
      (p : A → Bool) (xs ys : List A) → select p (xs ++ ys) ≡ select p xs ++ select p ys
  select-append p [] ys = refl
  select-append p (x ∷ xs) ys = elim (Bool-cases (p x)) [
    | inl e ↦ rw e (ap (λ l. x ∷ l) (select-append p xs ys))
    | inr e ↦ rw e (select-append p xs ys)
  ]

  -- A list with one more row.
  pub All-snoc {κ} :
      (P : A → Type κ) (xs : List A) (x : A) → All P xs → P x → All P (xs ++ (x ∷ []))
  All-snoc P xs x h k = All-append P xs (x ∷ []) h (k, tt)

  pub Memᴰ-snoc : (xs : List A) (x y : A) → Memᴰ y xs → Memᴰ y (xs ++ (x ∷ []))
  Memᴰ-snoc [] x y m = elim m [ ]
  Memᴰ-snoc (z ∷ xs) x y (Memᴰ.head e) = Memᴰ.head e
  Memᴰ-snoc (z ∷ xs) x y (Memᴰ.tail m) = Memᴰ.tail (Memᴰ-snoc xs x y m)
