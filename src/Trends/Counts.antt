-- ===== src/Trends/Counts.antt =====
-- What the counters of trend_primitives/queries.py hold.
use agentic_sec_blog_publish.Prelude.{
  ℕ, ◌+◌, ◌≡◌, String, ◌==◌, eq_iff, List, [], ◌∷◌, if◌then◌else◌, sum_by, sum_by-order_by, arith,
  IsSorted, order_by-IsSorted, text_leb_total, text_leb_trans, IsOrder, count_where,
}
use agentic_sec_blog_publish.Models.Changes.{MaterialChange}
use agentic_sec_blog_publish.Trends.{
  counted, counted_all, key_leb, counter, confirmed_impacts, decision_impact_frequency,
}

-- What the entries of a key add up to.
abbrev tally : String → List (String × ℕ) → ℕ
tally key counts = sum_by (λ e. if e.0 == key then e.1 else 0) counts

abbrev mentions : String → List String → ℕ
mentions key keys = count_where (λ k. k == key) keys

tally-counted :
    (key new : String) (counts : List (String × ℕ))
    → tally key (counted new counts) ≡ (if new == key then 1 else 0) + tally key counts
tally-counted key new [] = ground arith
tally-counted key new ((k, n) ∷ rest) = ground (arith, tally-counted key new rest, eq_iff k new)

tally-counted_all :
    (key : String) (keys : List String) (counts : List (String × ℕ))
    → tally key (counted_all keys counts) ≡ mentions key keys + tally key counts
tally-counted_all key [] counts = omega arith
tally-counted_all key (new ∷ keys) counts =
    ground (arith, tally-counted_all key keys (counted new counts), tally-counted key new counts)

key_leb-IsOrder : IsOrder key_leb
key_leb-IsOrder = record {
  total = λ a b. text_leb_total a.0 b.0;
  trans = λ a b c h k. text_leb_trans a.0 b.0 c.0 h k;
}

-- The frequencies are in the order of the impacts, and those of an impact add up to how often the
-- confirmed changes name it.
decision_impact_frequency-mentions :
    (changes : List MaterialChange) (key : String)
    → (tally key (decision_impact_frequency changes) ≡ mentions key (confirmed_impacts changes))
      × IsSorted key_leb (decision_impact_frequency changes)
unfolding decision_impact_frequency counter
decision_impact_frequency-mentions changes key =
    let keys = confirmed_impacts changes in
    (
      omega (
        arith,
        sum_by-order_by key_leb (λ e. if e.0 == key then e.1 else 0) (counted_all keys []),
        tally-counted_all key keys [],
      ),
      order_by-IsSorted key_leb-IsOrder (counted_all keys []),
    )
