-- ===== src/Contradictions/Flags.antt =====
-- What `flag_contradictions` of src/agentic_security/contradictions/rules.py finds.
use agentic_sec_blog_publish.Prelude.{
  String, ◌≡◌, refl, Bool, true, ◌==◌, eq_refl, Option, List, [], ◌∷◌, ◌++◌, arith, any, every, All,
  All-append, All-if, All-imp, All-Mem, Memᴰ,
}
use agentic_sec_blog_publish.Models.Evidence.{Evidence}
use agentic_sec_blog_publish.Models.Changes.{is_pending}
use agentic_sec_blog_publish.Models.Assertions.{Assertion}
use agentic_sec_blog_publish.Models.Reports.{ContradictionFlag}
use agentic_sec_blog_publish.Contradictions.{
  Flags, flag, flag_if, flag_pair, flag_against, flag_pairs, flag_autonomy, flag_each,
  flag_contradictions,
}

-- A flag about known assertions that waits for a human.
abbrev pub Awaits : (String → Bool) → ContradictionFlag → Type 0
Awaits known f =
    (every known f.assertion_ids ≡ true)
    × (f.human_review_required ≡ true)
    × (is_pending f.status ≡ true)

module _ (ev : String → Option Evidence) (known : String → Bool) where
  flag_if-All :
      (b : Bool) (name : String) (ids : List String) (by why : String) (flags : Flags)
      → every known ids ≡ true
      → All (Awaits known) flags
      → All (Awaits known) (flag_if b name ids by why flags)
  unfolding flag_if
  flag_if-All b name ids by why flags k h =
      All-if (Awaits known) b (flags ++ (flag name ids by why flags ∷ [])) flags
        (All-append (Awaits known) flags (flag name ids by why flags ∷ []) h ((k, refl, refl), tt))
        h

  flag_pair-All :
      (l r : Assertion) (flags : Flags)
      → known l.id ≡ true
      → known r.id ≡ true
      → All (Awaits known) flags
      → All (Awaits known) (flag_pair ev l r flags)
  unfolding flag_pair
  flag_pair-All l r flags kl kr h =
      let k : every known (l.id ∷ r.id ∷ []) ≡ true = ground arith in
      flag_if-All _ _ _ _ _ _ k (flag_if-All _ _ _ _ _ _ k (flag_if-All _ _ _ _ _ flags k h))

  flag_against-All :
      (l : Assertion) (rs : List Assertion) (flags : Flags)
      → known l.id ≡ true
      → All (λ a. known a.id ≡ true) rs
      → All (Awaits known) flags
      → All (Awaits known) (flag_against ev l rs flags)
  unfolding flag_against
  flag_against-All l [] flags kl ks h = h
  flag_against-All l (r ∷ rs) flags kl ks h =
      flag_against-All l rs (flag_pair ev l r flags) kl ks.1 (flag_pair-All l r flags kl ks.0 h)

  flag_pairs-All :
      (items : List Assertion) (flags : Flags)
      → All (λ a. known a.id ≡ true) items
      → All (Awaits known) flags
      → All (Awaits known) (flag_pairs ev items flags)
  unfolding flag_pairs
  flag_pairs-All [] flags ks h = h
  flag_pairs-All (l ∷ rest) flags ks h =
      flag_pairs-All rest (flag_against ev l rest flags) ks.1
        (flag_against-All l rest flags ks.0 ks.1 h)

  flag_each-All :
      (items : List Assertion) (flags : Flags)
      → All (λ a. known a.id ≡ true) items
      → All (Awaits known) flags
      → All (Awaits known) (flag_each ev items flags)
  unfolding flag_each flag_autonomy
  flag_each-All [] flags ks h = h
  flag_each-All (a ∷ rest) flags ks h =
      flag_each-All rest (flag_autonomy ev a flags) ks.1
        (flag_if-All _ _ _ _ _ flags (ground (arith, ks.0)) h)

any_mem :
    (q : Assertion → Bool) (x : Assertion) (xs : List Assertion)
    → Memᴰ x xs
    → q x ≡ true
    → any q xs ≡ true
any_mem q x [] m h = elim m [ ]
any_mem q x (y ∷ ys) (Memᴰ.head e) h = let k : q y ≡ true = rw e at h in ground arith
any_mem q x (y ∷ ys) (Memᴰ.tail m) h = ground (arith, any_mem q x ys m h)

-- Every flag names only assertions that were given, requires human review and is PENDING.
pub flag_contradictions-Awaits :
    (evidence_by_id : String → Option Evidence) (items : List Assertion)
    → All (Awaits (λ id. any (λ a. a.id == id) items)) (flag_contradictions evidence_by_id items)
unfolding flag_contradictions
flag_contradictions-Awaits ev items =
    let known : String → Bool = λ id. any (λ a. a.id == id) items in
    let all_known : All (λ (a : Assertion). known a.id ≡ true) items =
      All-imp items (λ a m. any_mem (λ b. b.id == a.id) a items m (eq_refl a.id)) (All-Mem items) in
    flag_each-All ev known items (flag_pairs ev items []) all_known
      (flag_pairs-All ev known items [] all_known tt)
