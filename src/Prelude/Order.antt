-- ===== src/Prelude/Order.antt =====
-- ORDER BY: a total order on texts by their code points, lexicographic keys, and a stable sort.
use Prim.Native.Nat.{ℕ, suc, ◌+◌}
use Prim.Native.Char.{code}
use Prim.Native.String.{String}
use mathlib.Core.Path.{◌≡◌, refl, subst}
use mathlib.Core.Bool.{Bool, true, false, ◌||◌}
use mathlib.Core.Logic.{inl, inr}
use mathlib.Core.List.{List, [], ◌∷◌}
use mathlib.Core.Option.{some}
use native.Mathlib.Omega.{arith}
use agentic_sec_blog_publish.Prelude.Tests.{ltb, eqb, if◌then◌else◌, Bool-cases}
use agentic_sec_blog_publish.Prelude.Lists.{All, All-imp, All-if, any, head?, length}

abbrev pub codes : String → List ℕ
codes String.[] = []
codes (String.◌∷◌ c s) = code c ∷ codes s

pub codes_leb : List ℕ → List ℕ → Bool
codes_leb [] ys = true
codes_leb (x ∷ xs) [] = false
codes_leb (x ∷ xs) (y ∷ ys) =
    let rest = codes_leb xs ys in if ltb x y then true else if eqb x y then rest else false

-- SQLite's BINARY collation, and Python's order on strings.
unfoldable pub text_leb : String → String → Bool
unfolding codes_leb
text_leb s t = codes_leb (codes s) (codes t)

-- One more key before `rest`, ascending.
abbrev pub then_by : ℕ → ℕ → Bool → Bool
then_by x y rest = if ltb x y then true else if eqb x y then rest else false

codes_leb_total : (xs ys : List ℕ) → (codes_leb xs ys || codes_leb ys xs) ≡ true
unfolding codes_leb
codes_leb_total [] ys = refl
codes_leb_total (x ∷ xs) [] = refl
codes_leb_total (x ∷ xs) (y ∷ ys) = ground (arith, codes_leb_total xs ys)

codes_leb_trans :
    (xs ys zs : List ℕ) → codes_leb xs ys ≡ true → codes_leb ys zs ≡ true → codes_leb xs zs ≡ true
unfolding codes_leb
codes_leb_trans [] ys zs h k = refl
codes_leb_trans (x ∷ xs) [] zs h k = ground arith
codes_leb_trans (x ∷ xs) (y ∷ ys) [] h k = ground arith
codes_leb_trans (x ∷ xs) (y ∷ ys) (z ∷ zs) h k = ground (arith, codes_leb_trans xs ys zs)

pub text_leb_total : (s t : String) → (text_leb s t || text_leb t s) ≡ true
unfolding text_leb
text_leb_total s t = codes_leb_total (codes s) (codes t)

pub text_leb_trans :
    (s t u : String) → text_leb s t ≡ true → text_leb t u ≡ true → text_leb s u ≡ true
unfolding text_leb
text_leb_trans s t u h k = codes_leb_trans (codes s) (codes t) (codes u) h k

-- What a sort needs of its order.
pub record IsOrder {ℓ} {A : Type ℓ} (le : A → A → Bool) : Type ℓ where
  pub total : (a b : A) → (le a b || le b a) ≡ true
  pub trans : (a b c : A) → le a b ≡ true → le b c ≡ true → le a c ≡ true

module _ {ℓ} {A : Type ℓ} where
  pub insert_by : (A → A → Bool) → A → List A → List A
  insert_by le x [] = x ∷ []
  insert_by le x (y ∷ ys) = if le x y then x ∷ y ∷ ys else y ∷ insert_by le x ys

  -- Stable, as Python's `sorted` is.
  unfoldable pub order_by : (A → A → Bool) → List A → List A
  unfolding insert_by
  order_by le [] = []
  order_by le (x ∷ xs) = insert_by le x (order_by le xs)

  abbrev pub IsSorted : (A → A → Bool) → List A → Type 0
  IsSorted le [] = Unit
  IsSorted le (x ∷ xs) = All (λ y. le x y ≡ true) xs × IsSorted le xs

  abbrev pub sum_by : (A → ℕ) → List A → ℕ
  sum_by f [] = 0
  sum_by f (x ∷ xs) = f x + sum_by f xs

module _ {ℓ} {A : Type ℓ} (le : A → A → Bool) where
  All-insert_by {κ} :
      (P : A → Type κ) (x : A) (ys : List A) → P x → All P ys → All P (insert_by le x ys)
  unfolding insert_by
  All-insert_by P x [] px h = (px, tt)
  All-insert_by P x (y ∷ ys) px h =
      All-if P (le x y) (x ∷ y ∷ ys) (y ∷ insert_by le x ys) (px, h)
        (h.0, All-insert_by P x ys px h.1)

  insert_by-All {κ} :
      (P : A → Type κ) (x : A) (ys : List A) → All P (insert_by le x ys) → P x × All P ys
  unfolding insert_by
  insert_by-All P x [] h = (h.0, tt)
  insert_by-All P x (y ∷ ys) h = elim (Bool-cases (le x y)) [
    | inl first ↦ let k : All P (x ∷ y ∷ ys) = rw first at h in (k.0, k.1)
    | inr later ↦
        let k : All P (y ∷ insert_by le x ys) = rw later at h in
        let r = insert_by-All P x ys k.1 in (r.0, (k.0, r.1))
  ]

  pub order_by-All {κ} : (P : A → Type κ) (xs : List A) → All P (order_by le xs) → All P xs
  unfolding order_by
  order_by-All P [] h = tt
  order_by-All P (x ∷ xs) h =
      let r = insert_by-All P x (order_by le xs) h in (r.0, order_by-All P xs r.1)

  pub All-order_by {κ} : (P : A → Type κ) (xs : List A) → All P xs → All P (order_by le xs)
  unfolding order_by
  All-order_by P [] h = tt
  All-order_by P (x ∷ xs) h = All-insert_by P x (order_by le xs) h.0 (All-order_by P xs h.1)

  length-insert_by : (x : A) (ys : List A) → length (insert_by le x ys) ≡ suc (length ys)
  unfolding insert_by
  length-insert_by x [] = refl
  length-insert_by x (y ∷ ys) = ground (arith, length-insert_by x ys)

  pub length-order_by : (xs : List A) → length (order_by le xs) ≡ length xs
  unfolding order_by
  length-order_by [] = refl
  length-order_by (x ∷ xs) = omega (arith, length-insert_by x (order_by le xs), length-order_by xs)

  any-insert_by :
      (p : A → Bool) (x : A) (ys : List A) → any p (insert_by le x ys) ≡ (p x || any p ys)
  unfolding insert_by
  any-insert_by p x [] = refl
  any-insert_by p x (y ∷ ys) = ground (arith, any-insert_by p x ys)

  pub any-order_by : (p : A → Bool) (xs : List A) → any p (order_by le xs) ≡ any p xs
  unfolding order_by
  any-order_by p [] = refl
  any-order_by p (x ∷ xs) = ground (arith, any-insert_by p x (order_by le xs), any-order_by p xs)

  sum_by-insert_by :
      (f : A → ℕ) (x : A) (ys : List A) → sum_by f (insert_by le x ys) ≡ f x + sum_by f ys
  unfolding insert_by
  sum_by-insert_by f x [] = refl
  sum_by-insert_by f x (y ∷ ys) = ground (arith, sum_by-insert_by f x ys)

  pub sum_by-order_by : (f : A → ℕ) (xs : List A) → sum_by f (order_by le xs) ≡ sum_by f xs
  unfolding order_by
  sum_by-order_by f [] = refl
  sum_by-order_by f (x ∷ xs) =
      omega (arith, sum_by-insert_by f x (order_by le xs), sum_by-order_by f xs)

module _ {ℓ} {A : Type ℓ} {le : A → A → Bool} (order : IsOrder le) where
  le_of_not : (a b : A) → le a b ≡ false → le b a ≡ true
  le_of_not a b h = ground (arith, order.total a b)

  insert_by-IsSorted : (x : A) (ys : List A) → IsSorted le ys → IsSorted le (insert_by le x ys)
  unfolding insert_by
  insert_by-IsSorted x [] h = (tt, tt)
  insert_by-IsSorted x (y ∷ ys) h = elim (Bool-cases (le x y)) [
    | inl e ↦ rw e ((e, All-imp ys (λ z k. order.trans x y z e k) h.0), h)
    | inr e ↦ rw e (
      All-insert_by le (λ z. le y z ≡ true) x ys (le_of_not x y e) h.0,
      insert_by-IsSorted x ys h.1,
    )
  ]

  pub order_by-IsSorted : (xs : List A) → IsSorted le (order_by le xs)
  unfolding order_by
  order_by-IsSorted [] = tt
  order_by-IsSorted (x ∷ xs) = insert_by-IsSorted x (order_by le xs) (order_by-IsSorted xs)

  le_refl_of : (a : A) → le a a ≡ true
  le_refl_of a = ground (arith, order.total a a)

  IsSorted-first :
      (xs : List A) {x : A} → IsSorted le xs → head? xs ≡ some x → All (λ y. le x y ≡ true) xs
  IsSorted-first [] s h = tt
  IsSorted-first (y ∷ xs) {x} s h =
      let k : y ≡ x = cc in subst (λ z. All (λ w. le z w ≡ true) (y ∷ xs)) k (le_refl_of y, s.0)

  -- The first row of an ordered selection is before every row that was selected.
  pub order_by-first :
      (xs : List A) {x : A} → head? (order_by le xs) ≡ some x → All (λ y. le x y ≡ true) xs
  order_by-first xs {x} h =
      order_by-All le (λ y. le x y ≡ true) xs
        (IsSorted-first (order_by le xs) (order_by-IsSorted xs) h)
