-- ===== src/Collection/Robots/Closed.antt =====
-- What the policy lets through, and that its answers do not change.
use agentic_sec_blog_publish.Prelude.{
  ℕ, zero, suc, ◌≡◌, refl, inl, inr, String, true, false, eq_refl, Option, none, some, List, [],
  ◌∷◌, length, ap, subst, sym, Option-cases, Result, ok, err, arith,
}
use agentic_sec_blog_publish.Sources.{RegistryError}
use Prim.Native.String.{◌++◌ as append}
use agentic_sec_blog_publish.Collection.{Response}
use agentic_sec_blog_publish.Collection.Http.{Site, Reply, unreachable, answered}
use agentic_sec_blog_publish.Collection.Robots.{
  Parser, caught, no_rules, parsed, Robots, lookup, valid, after_reply, ask, robots_hops, or_again,
  robots_attempts, fetch_rules, with_rules, decide, located, Progress, read_rules, allowed_at,
  allowed,
}

module _ (site : Site) (rules : String → Parser) (source_id : String) where
  with_rules_known :
      (robots : Robots) (origin : String) (parser : Option Parser)
      → lookup origin robots.parsers ≡ some parser
      → with_rules site rules source_id robots origin ≡ robots
  unfolding with_rules
  with_rules_known robots origin parser e = rw e refl

  fetch_rules_again :
      (robots : Robots) (origin : String) (url : Result RegistryError String)
      → lookup origin robots.parsers ≡ none
      → valid site rules source_id (append origin "/robots.txt") ≡ url
      → with_rules site rules source_id (fetch_rules site rules source_id robots origin url) origin
        ≡ fetch_rules site rules source_id robots origin url
  unfolding with_rules
  fetch_rules_again robots origin (err e) h k = rw (h, k) refl
  fetch_rules_again robots origin (ok url) h k =
      let after = fetch_rules site rules source_id robots origin (ok url) in
      with_rules_known after origin
        (robots_attempts site rules source_id site.limits.max_retries url robots.requests).0
        (ground (arith, eq_refl origin))

  with_rules_again :
      (robots : Robots) (origin : String)
      → with_rules site rules source_id (with_rules site rules source_id robots origin) origin
        ≡ with_rules site rules source_id robots origin
  unfolding with_rules
  with_rules_again robots origin = elim (Option-cases (lookup origin robots.parsers)) [
    | inr (parser, e) ↦
        let same = with_rules_known robots origin parser e in
        subst (λ r. with_rules site rules source_id r origin ≡ r) (sym same) same
    | inl e ↦
        let url = valid site rules source_id (append origin "/robots.txt") in
        let fetched : with_rules site rules source_id robots origin
            ≡ fetch_rules site rules source_id robots origin url =
          rw e refl in
        subst (λ r. with_rules site rules source_id r origin ≡ r) (sym fetched)
          (fetch_rules_again robots origin url e refl)
  ]

  allowed_at_again :
      (robots : Robots) (place : Result RegistryError (String × String))
      → allowed_at site rules source_id (allowed_at site rules source_id robots place).1 place
        ≡ allowed_at site rules source_id robots place
  allowed_at_again robots (err e) = refl
  allowed_at_again robots (ok (canonical, origin)) =
      ap (λ after. (decide site rules source_id (lookup origin after.parsers) canonical, after))
        (with_rules_again robots origin)

  -- Asked again for a URL, the policy gives the same answer, and sends no request.
  pub allowed_again :
      (robots : Robots) (url : String)
      → allowed site rules source_id (allowed site rules source_id robots url).1 url
        ≡ allowed site rules source_id robots url
  unfolding allowed
  allowed_again robots url = allowed_at_again robots (located site rules source_id url)

  -- Nothing but failures: no answer, or an answer that `raise_for_status` refuses.
  pub data Fails : Reply → Type 0 where
    no_answer : Fails unreachable
    refused :
        (response : Response)
        → response.is_redirect ≡ false
        → response.is_refused ≡ true
        → Fails (answered response)

  abbrev pub Down : Type 0
  Down = (n : ℕ) (url : String) → Fails (site.serve n url).0

  after_reply-caught :
      (next : String → List String → Progress site rules source_id) (left : ℕ) (current : String)
      (requests : List String) (reply : Reply)
      → Fails reply
      → (after_reply site rules source_id next left current requests reply).0 ≡ caught
  unfolding read_rules
  after_reply-caught next left current requests _ no_answer = refl
  after_reply-caught next left current requests _ (refused response h k) = ground (arith, h, k)

  robots_hops-caught :
      (down : Down) (left : ℕ) (current : String) (requests : List String)
      → (robots_hops site rules source_id left current requests).0 ≡ caught
  unfolding robots_hops
  robots_hops-caught down zero current requests =
      after_reply-caught (λ url after. (no_rules, url, after)) 0 current (current ∷ requests)
        (ask site rules source_id requests current) (down (length requests) current)
  robots_hops-caught down (suc left) current requests =
      after_reply-caught (λ url after. robots_hops site rules source_id left url after) (suc left)
        current (current ∷ requests) (ask site rules source_id requests current)
        (down (length requests) current)

  or_again-none :
      (next : String → List String → Option Parser × List String)
      (p : Progress site rules source_id)
      → p.0 ≡ caught
      → ((url : String) (requests : List String) → (next url requests).0 ≡ none)
      → (or_again site rules source_id next p).0 ≡ none
  or_again-none next (caught, url, requests) h k = k url requests
  or_again-none next (no_rules, url, requests) h k = refl
  or_again-none next (parsed parser, url, requests) h k = absurd (ground arith)

  robots_attempts-none :
      (down : Down) (left : ℕ) (current : String) (requests : List String)
      → (robots_attempts site rules source_id left current requests).0 ≡ none
  unfolding robots_attempts
  robots_attempts-none down zero current requests =
      or_again-none (λ url after. (none, after))
        (robots_hops site rules source_id site.limits.max_redirects current requests)
        (robots_hops-caught down site.limits.max_redirects current requests) (λ url after. refl)
  robots_attempts-none down (suc left) current requests =
      or_again-none (λ url after. robots_attempts site rules source_id left url after)
        (robots_hops site rules source_id site.limits.max_redirects current requests)
        (robots_hops-caught down site.limits.max_redirects current requests)
        (λ url after. robots_attempts-none down left url after)

  fetch_rules-closed :
      (down : Down) (robots : Robots) (origin canonical : String)
      (url : Result RegistryError String)
      → robots.parsers ≡ []
      → decide site rules source_id
          (lookup origin (fetch_rules site rules source_id robots origin url).parsers)
          canonical
        ≡ false
  fetch_rules-closed down robots origin canonical (err e) h = rw h refl
  fetch_rules-closed down robots origin canonical (ok url) h =
      rw (eq_refl origin, robots_attempts-none down site.limits.max_retries url robots.requests)
        refl

  allowed_at-closed :
      (down : Down) (robots : Robots) (place : Result RegistryError (String × String))
      → robots.parsers ≡ []
      → (allowed_at site rules source_id robots place).0 ≡ false
  unfolding with_rules
  allowed_at-closed down robots (err e) h = refl
  allowed_at-closed down robots (ok (canonical, origin)) h =
      let url = valid site rules source_id (append origin "/robots.txt") in
      let missing : lookup origin robots.parsers ≡ none = rw h refl in
      rw (with_rules, missing) (fetch_rules-closed down robots origin canonical url h)

  -- While every request fails, a policy that has fetched no rules yet allows nothing.
  pub allowed-closed :
      (down : Down) (robots : Robots) (url : String)
      → robots.parsers ≡ []
      → (allowed site rules source_id robots url).0 ≡ false
  unfolding allowed
  allowed-closed down robots url h =
      allowed_at-closed down robots (located site rules source_id url) h
