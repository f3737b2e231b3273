-- ===== src/Prelude/Rows.antt =====
-- Laws of the table operations: a search after an insertion or an update, counts, conditions.
use mathlib.Core.Path.{◌≡◌, refl, ap}
use mathlib.Core.Bool.{Bool, true, false, ◌&&◌}
use mathlib.Core.Logic.{inl, inr}
use mathlib.Core.List.{List, [], ◌∷◌, ◌++◌, map, Memᴰ, map-append}
use mathlib.Core.Option.{Option, none, some}
use native.Mathlib.Omega.{arith}
use Prim.Native.String.{String}
use text.Mathlib.Text.{◌==◌}
use agentic_sec_blog_publish.Prelude.Tests.{if◌then◌else◌, is_some, Bool-cases}
use agentic_sec_blog_publish.Prelude.Lists.{
  is_empty, All, All-imp, All-append, length, any, select, find, update_where, count_where, head?,
}

abbrev pub map_some {ℓ κ} : {A : Type ℓ} {B : Type κ} → (A → B) → Option A → Option B
map_some f none = none
map_some f (some a) = some (f a)

abbrev pub or_else {ℓ} : {A : Type ℓ} → Option A → Option A → Option A
or_else none o = o
or_else (some a) o = some a

module _ {ℓ} {A : Type ℓ} where
  pub find-append :
      (p : A → Bool) (xs ys : List A) → find p (xs ++ ys) ≡ or_else (find p xs) (find p ys)
  find-append p [] ys = refl
  find-append p (x ∷ xs) ys = ground (arith, find-append p xs ys)

  pub any-find : (p : A → Bool) (xs : List A) → any p xs ≡ is_some (find p xs)
  any-find p [] = refl
  any-find p (x ∷ xs) = ground (arith, any-find p xs)

  pub find_sat : (p : A → Bool) (xs : List A) {x : A} → find p xs ≡ some x → p x ≡ true
  find_sat p [] h = cc
  find_sat p (y ∷ xs) h = elim (Bool-cases (p y)) [
    | inl here ↦ let e : some y ≡ some _ = rw here at h in cc
    | inr later ↦ find_sat p xs (rw later at h)
  ]

  pub find-update_where :
      (q p : A → Bool) (f : A → A) (xs : List A)
      → ((x : A) → q (f x) ≡ q x)
      → find q (update_where p f xs) ≡ map_some (λ x. if p x then f x else x) (find q xs)
  find-update_where q p f [] h = refl
  find-update_where q p f (x ∷ xs) h = ground (arith, find-update_where q p f xs h, h x)

  pub All-update_where {κ} :
      (P : A → Type κ) (p : A → Bool) (f : A → A) (xs : List A)
      → ((x : A) → p x ≡ true → P x → P (f x))
      → All P xs
      → All P (update_where p f xs)
  All-update_where P p f [] keep h = tt
  All-update_where P p f (x ∷ xs) keep h = (
    elim (Bool-cases (p x)) [ inl e ↦ rw e (keep x e h.0) | inr e ↦ rw e h.0 ],
    All-update_where P p f xs keep h.1,
  )

  pub map-update_where {κ} :
      {B : Type κ} (g : A → B) (p : A → Bool) (f : A → A) (xs : List A)
      → ((x : A) → g (f x) ≡ g x)
      → map g (update_where p f xs) ≡ map g xs
  map-update_where g p f [] h = refl
  map-update_where g p f (x ∷ xs) h = ground (arith, map-update_where g p f xs h, h x)

  pub length-update_where :
      (p : A → Bool) (f : A → A) (xs : List A) → length (update_where p f xs) ≡ length xs
  length-update_where p f [] = refl
  length-update_where p f (x ∷ xs) = omega (arith, length-update_where p f xs)

  -- What holds of the rows that a search runs over holds of the row it finds.
  pub find-All {κ} :
      (P : A → Type κ) (p : A → Bool) (xs : List A) {x : A} → All P xs → find p xs ≡ some x → P x
  find-All P p [] h e = absurd (cc)
  find-All P p (y ∷ xs) h e = elim (Bool-cases (p y)) [
    | inl here ↦ let k : some y ≡ some _ = rw here at e in rw (← some_inj k) h.0
    | inr later ↦ find-All P p xs h.1 (rw later at e)
  ]
    where
      some_inj : {a b : A} → some a ≡ some b → a ≡ b
      some_inj k = cc

  pub select-All {κ} :
      (P : A → Type κ) (p : A → Bool) (xs : List A)
      → All P (select p xs)
      → All (λ x. p x ≡ true → P x) xs
  select-All P p [] h = tt
  select-All P p (x ∷ xs) h = elim (Bool-cases (p x)) [
    | inl e ↦ let k : All P (x ∷ select p xs) = rw e at h in ((λ _. k.0), select-All P p xs k.1)
    | inr e ↦ let k : All P (select p xs) = rw e at h in ((λ t. cc), select-All P p xs k)
  ]

  pub select_sat : (p : A → Bool) (xs : List A) → All (λ x. p x ≡ true) (select p xs)
  select_sat p [] = tt
  select_sat p (x ∷ xs) = elim (Bool-cases (p x)) [
    | inl e ↦ rw e (e, select_sat p xs)
    | inr e ↦ rw e (select_sat p xs)
  ]

  pub All-Mem : (xs : List A) → All (λ x. Memᴰ x xs) xs
  All-Mem [] = tt
  All-Mem (x ∷ xs) = (Memᴰ.head refl, All-imp xs (λ y m. Memᴰ.tail m) (All-Mem xs))

  pub mem-All {κ} : (P : A → Type κ) (x : A) (xs : List A) → All P xs → Memᴰ x xs → P x
  mem-All P x [] h m = elim m [ ]
  mem-All P x (y ∷ xs) h (Memᴰ.head e) = rw e h.0
  mem-All P x (y ∷ xs) h (Memᴰ.tail m) = mem-All P x xs h.1 m

  pub any-select :
      (q p : A → Bool) (x : A) (xs : List A)
      → Memᴰ x xs
      → p x ≡ true
      → q x ≡ true
      → any q (select p xs) ≡ true
  any-select q p x [] m h k = elim m [ ]
  any-select q p x (y ∷ xs) (Memᴰ.head e) h k =
      let h' : p y ≡ true = rw e at h in let k' : q y ≡ true = rw e at k in ground arith
  any-select q p x (y ∷ xs) (Memᴰ.tail m) h k = ground (arith, any-select q p x xs m h k)

  pub update_where-map :
      (p : A → Bool) (f : A → A) (xs : List A)
      → update_where p f xs ≡ map (λ x. if p x then f x else x) xs
  update_where-map p f [] = refl
  update_where-map p f (x ∷ xs) = ap (◌∷◌ (if p x then f x else x)) (update_where-map p f xs)

  pub map-All {κ} :
      {B : Type κ} (f g : A → B) (xs : List A) → All (λ x. f x ≡ g x) xs → map f xs ≡ map g xs
  map-All f g [] h = refl
  map-All f g (x ∷ xs) h = cc (h.0, map-All f g xs h.1)

  pub head-All {κ} : (P : A → Type κ) (xs : List A) {x : A} → All P xs → head? xs ≡ some x → P x
  head-All P [] h e = absurd (cc)
  head-All P (y ∷ xs) {x} h e = let k : x ≡ y = cc in rw k h.0

  pub map-All_of {κ μ} :
      {B : Type κ} (P : B → Type μ) (g : A → B) (xs : List A)
      → All P (map g xs)
      → All (λ x. P (g x)) xs
  map-All_of P g [] h = tt
  map-All_of P g (x ∷ xs) h = (h.0, map-All_of P g xs h.1)

  pub find-map :
      (q : A → Bool) (f : A → A) (xs : List A)
      → ((x : A) → q (f x) ≡ q x)
      → find q (map f xs) ≡ map_some f (find q xs)
  find-map q f [] h = refl
  find-map q f (x ∷ xs) h = ground (arith, find-map q f xs h, h x)

  pub All-map {κ μ} :
      {B : Type κ} (P : B → Type μ) (g : A → B) (xs : List A)
      → All (λ x. P (g x)) xs
      → All P (map g xs)
  All-map P g [] h = tt
  All-map P g (x ∷ xs) h = (h.0, All-map P g xs h.1)

  pub All-none : (p : A → Bool) (xs : List A) → any p xs ≡ false → All (λ x. p x ≡ false) xs
  All-none p [] h = tt
  All-none p (x ∷ xs) h = (ground arith, All-none p xs (ground arith))

  pub map_id : (xs : List A) → map (λ x. x) xs ≡ xs
  map_id [] = refl
  map_id (x ∷ xs) = ap (◌∷◌ x) (map_id xs)

  pub map-map {κ μ} :
      {B : Type κ} {C : Type μ} (f : B → C) (g : A → B) (xs : List A)
      → map f (map g xs) ≡ map (λ x. f (g x)) xs
  map-map f g [] = refl
  map-map f g (x ∷ xs) = ap (◌∷◌ (f (g x))) (map-map f g xs)

  pub count-select :
      (q p : A → Bool) (xs : List A)
      → count_where q (select p xs) ≡ count_where (λ x. p x && q x) xs
  count-select q p [] = refl
  count-select q p (x ∷ xs) = ground (arith, count-select q p xs)

-- A row that is kept was there, and passes the test.
module _ {ℓ} {A : Type ℓ} (p : A → Bool) where
  pub select_witness :
      (xs : List A) → is_empty (select p xs) ≡ false → (x : A) × Memᴰ x xs × (p x ≡ true)
  select_witness [] h = absurd (cc)
  select_witness (x ∷ xs) h = elim (Bool-cases (p x)) [
    | inl e ↦ (x, Memᴰ.head refl, e)
    | inr e ↦ let rest = select_witness xs (rw e at h) in (rest.0, Memᴰ.tail rest.1, rest.2)
  ]

  pub select-mem : (x : A) (xs : List A) → Memᴰ x (select p xs) → Memᴰ x xs
  select-mem x [] m = m
  select-mem x (y ∷ ys) m = elim (Bool-cases (p y)) [
    | inl e ↦ keep (select-mem x ys) (rw e at m)
    | inr e ↦ Memᴰ.tail (select-mem x ys (rw e at m))
  ]
    where
      keep : (Memᴰ x (select p ys) → Memᴰ x ys) → Memᴰ x (y ∷ select p ys) → Memᴰ x (y ∷ ys)
      keep more (Memᴰ.head e) = Memᴰ.head e
      keep more (Memᴰ.tail n) = Memᴰ.tail (more n)

-- No text stands twice.
abbrev pub Distinct : List String → Type 0
Distinct [] = Unit
Distinct (x ∷ xs) = All (λ y. (x == y) ≡ false) xs × Distinct xs

Distinct-append :
    (xs : List String) (y : String)
    → Distinct xs
    → All (λ x. (x == y) ≡ false) xs
    → Distinct (xs ++ (y ∷ []))
Distinct-append [] y d h = (tt, tt)
Distinct-append (x ∷ xs) y d h =
    (All-append (λ z. (x == z) ≡ false) xs (y ∷ []) d.0 (h.0, tt), Distinct-append xs y d.1 h.1)

-- A row whose key no other row has may be added.
pub Distinct-insert {ℓ} :
    {A : Type ℓ} (g : A → String) (xs : List A) (x : A)
    → Distinct (map g xs)
    → any (λ a. g a == g x) xs ≡ false
    → Distinct (map g (xs ++ (x ∷ [])))
Distinct-insert g xs x d h = rw map-append (
    Distinct-append (map g xs) (g x) d
      (All-map (λ s. (s == g x) ≡ false) g xs (All-none (λ a. g a == g x) xs h)))
