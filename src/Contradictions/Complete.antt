-- ===== src/Contradictions/Complete.antt =====
-- What `flag_contradictions` of src/agentic_security/contradictions/rules.py does not miss.
use agentic_sec_blog_publish.Prelude.{
  String, ◌≡◌, refl, Bool, true, false, ◌&&◌, ◌||◌, ◌==◌, eq_refl, Option, List, [], ◌∷◌, ◌++◌,
  arith, any,
}
use agentic_sec_blog_publish.Models.Evidence.{Evidence}
use agentic_sec_blog_publish.Models.Assertions.{Assertion}
use agentic_sec_blog_publish.Models.Reports.{ContradictionFlag}
use agentic_sec_blog_publish.Contradictions.{
  Flags, flag, flag_if, same_subject, opposed, state_rule, flag_pair, flag_against, flag_pairs,
  flag_autonomy, flag_each, flag_contradictions,
}

any-append :
    (p : ContradictionFlag → Bool) (xs ys : Flags) → any p (xs ++ ys) ≡ (any p xs || any p ys)
any-append p [] ys = refl
any-append p (x ∷ xs) ys = ground (arith, any-append p xs ys)

abbrev is_pair : (left right : String) → List String → Bool
is_pair left right (a ∷ b ∷ []) = a == left && b == right
is_pair left right _ = false

-- A flag of the conflicting states of these two assertions.
abbrev pub is_state_flag : (left right : String) → ContradictionFlag → Bool
is_state_flag left right f = f.detected_by == state_rule && is_pair left right f.assertion_ids

module _ (ev : String → Option Evidence) (p : ContradictionFlag → Bool) where
  flag_if-any :
      (b : Bool) (name : String) (ids : List String) (by why : String) (flags : Flags)
      → any p flags ≡ true
      → any p (flag_if b name ids by why flags) ≡ true
  unfolding flag_if
  flag_if-any b name ids by why flags h =
      ground (arith, any-append p flags (flag name ids by why flags ∷ []))

  flag_pair-any :
      (l r : Assertion) (flags : Flags) → any p flags ≡ true → any p (flag_pair ev l r flags) ≡ true
  unfolding flag_pair
  flag_pair-any l r flags h =
      flag_if-any _ _ _ _ _ _ (flag_if-any _ _ _ _ _ _ (flag_if-any _ _ _ _ _ flags h))

  flag_against-any :
      (l : Assertion) (rs : List Assertion) (flags : Flags)
      → any p flags ≡ true
      → any p (flag_against ev l rs flags) ≡ true
  unfolding flag_against
  flag_against-any l [] flags h = h
  flag_against-any l (r ∷ rs) flags h =
      flag_against-any l rs (flag_pair ev l r flags) (flag_pair-any l r flags h)

  flag_pairs-any :
      (items : List Assertion) (flags : Flags)
      → any p flags ≡ true
      → any p (flag_pairs ev items flags) ≡ true
  unfolding flag_pairs
  flag_pairs-any [] flags h = h
  flag_pairs-any (l ∷ rest) flags h =
      flag_pairs-any rest (flag_against ev l rest flags) (flag_against-any l rest flags h)

  flag_each-any :
      (items : List Assertion) (flags : Flags)
      → any p flags ≡ true
      → any p (flag_each ev items flags) ≡ true
  unfolding flag_each flag_autonomy
  flag_each-any [] flags h = h
  flag_each-any (a ∷ rest) flags h =
      flag_each-any rest (flag_autonomy ev a flags) (flag_if-any _ _ _ _ _ flags h)

module _ (ev : String → Option Evidence) (left right : Assertion)
    (same : same_subject left right ≡ true) (opposite : opposed left.state right.state ≡ true) where
  flag_state-here :
      (flags : Flags)
      → any (is_state_flag left.id right.id) (
          flag_if
            (same_subject left right && opposed left.state right.state)
            "STATE"
            (left.id ∷ right.id ∷ [])
            state_rule
            "Same subject has affirmed and explicitly unsupported states."
            flags)
        ≡ true
  unfolding flag_if
  flag_state-here flags =
      rw (same, opposite)
        (rw
          (any-append (is_state_flag left.id right.id) flags (
            flag "STATE" (left.id ∷ right.id ∷ []) state_rule
              "Same subject has affirmed and explicitly unsupported states." flags
            ∷ []))
          (ground (arith, eq_refl left.id, eq_refl right.id)))

  flag_pair-state :
      (flags : Flags) → any (is_state_flag left.id right.id) (flag_pair ev left right flags) ≡ true
  unfolding flag_pair
  flag_pair-state flags =
      let p = is_state_flag left.id right.id in
      flag_if-any ev p _ _ _ _ _ _ (flag_if-any ev p _ _ _ _ _ _ (flag_state-here flags))

  flag_against-state :
      (before after : List Assertion) (flags : Flags)
      → any
          (is_state_flag left.id right.id)
          (flag_against ev left (before ++ (right ∷ after)) flags)
        ≡ true
  unfolding flag_against
  flag_against-state [] after flags =
      flag_against-any ev (is_state_flag left.id right.id) left after
        (flag_pair ev left right flags) (flag_pair-state flags)
  flag_against-state (r ∷ before) after flags =
      flag_against-state before after (flag_pair ev left r flags)

  flag_pairs-state :
      (first before after : List Assertion) (flags : Flags)
      → any
          (is_state_flag left.id right.id)
          (flag_pairs ev (first ++ (left ∷ before ++ (right ∷ after))) flags)
        ≡ true
  unfolding flag_pairs
  flag_pairs-state [] before after flags =
      let rest = before ++ (right ∷ after) in
      flag_pairs-any ev (is_state_flag left.id right.id) rest (flag_against ev left rest flags)
        (flag_against-state before after flags)
  flag_pairs-state (l ∷ first) before after flags =
      flag_pairs-state first before after
        (flag_against ev l (first ++ (left ∷ before ++ (right ∷ after))) flags)

-- Wherever an assertion stands before another of the same subject, one affirmed and the other
-- explicitly unsupported, a flag of the state rule names the two in this order.
pub flag_contradictions_complete :
    (evidence_by_id : String → Option Evidence) (left right : Assertion)
    (first before after : List Assertion)
    → same_subject left right ≡ true
    → opposed left.state right.state ≡ true
    → any
        (is_state_flag left.id right.id)
        (flag_contradictions evidence_by_id (first ++ (left ∷ before ++ (right ∷ after))))
      ≡ true
unfolding flag_contradictions
flag_contradictions_complete ev left right first before after same opposite =
    let items = first ++ (left ∷ before ++ (right ∷ after)) in
    flag_each-any ev (is_state_flag left.id right.id) items (flag_pairs ev items [])
      (flag_pairs-state ev left right same opposite first before after [])
