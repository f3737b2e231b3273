-- ===== src/Derivations/Scope/Latest.antt =====
-- The current scope is that of the latest accepted observation of the assertion.
use agentic_sec_blog_publish.Prelude.{String, ◌≡◌, true, List, All, Memᴰ}
use agentic_sec_blog_publish.Models.Assertions.{AssertionScope, Observation}
use agentic_sec_blog_publish.Derivations.Scope.{observed_leb, concerns}

-- `m` is not below the first item nor any other.
abbrev Above : Observation → List Observation → Observation → Type 0
Above best items m = (observed_leb best m ≡ true) × All (λ item. observed_leb item m ≡ true) items

-- The observation that decides the scope.
pub record Decides (id : String) (observations : List Observation) (scope : AssertionScope)
    (o : Observation) : Type 0 where
  pub is_scope : scope ≡ o.scope
  pub member : Memᴰ o observations
  pub accepted : concerns id o ≡ true
  pub latest : All (λ x. concerns id x ≡ true → observed_leb x o ≡ true) observations
