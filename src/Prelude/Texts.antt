-- ===== src/Prelude/Texts.antt =====
-- Python's operations on texts that the components share.
use Prim.Native.Nat.{ℕ, zero, suc, ◌/◌, ◌%◌}
use Prim.Native.String.{String, ◌++◌}
use mathlib.Core.Bool.{Bool}
use mathlib.Core.List.{List, [], ◌∷◌}
use text.Mathlib.Text.{find?, ◌==◌}
use agentic_sec_blog_publish.Prelude.Tests.{is_some, ltb, eqb, if◌then◌else◌}
use agentic_sec_blog_publish.Prelude.Lists.{any}

-- `needle in text`
abbrev pub contains : String → String → Bool
contains text needle = is_some (find? text needle)

-- `any(word in text for word in words)`
abbrev pub contains_any : String → List String → Bool
contains_any text words = any (λ word. contains text word) words

join_after : String → String → List String → String
join_after separator text [] = text
join_after separator text (x ∷ xs) = join_after separator (text ++ (separator ++ x)) xs

-- `separator.join(texts)`
unfoldable pub join : String → List String → String
unfolding join_after
join separator [] = ""
join separator (x ∷ xs) = join_after separator x xs

abbrev digit : ℕ → String
digit n =
    if eqb n 0
    then "0"
    else if eqb n 1
    then "1"
    else if eqb n 2
    then "2"
    else if eqb n 3
    then "3"
    else if eqb n 4
    then "4"
    else if eqb n 5
    then "5"
    else if eqb n 6
    then "6"
    else if eqb n 7
    then "7"
    else if eqb n 8
    then "8"
    else "9"

decimal_from : ℕ → ℕ → String → String
decimal_from zero n rest = rest
decimal_from (suc fuel) n rest =
    let longer = decimal_from fuel (n / 10) (digit (n % 10) ++ rest) in
    if ltb n 10 then digit n ++ rest else longer

-- A number in an f-string. `n` has at most `n + 1` digits.
unfoldable pub decimal : ℕ → String
unfolding decimal_from
decimal n = decimal_from (suc n) n ""

-- `text in texts`
abbrev pub is_member : String → List String → Bool
is_member text texts = any (λ t. t == text) texts

-- The members of a set that is built in this order.
abbrev pub distinct_from : List String → List String → List String
distinct_from seen [] = []
distinct_from seen (x ∷ xs) =
    let later = distinct_from (x ∷ seen) xs in
    let rest = distinct_from seen xs in if is_member x seen then rest else x ∷ later

-- `tuple(dict.fromkeys(texts))`
abbrev pub without_repeats : List String → List String
without_repeats texts = distinct_from [] texts
