-- ===== src/Collection/Robots.antt =====
-- `FailClosedRobotsPolicy` of src/agentic_security/collection/http.py. `rules` is what
-- urllib.robotparser makes of a text: which URLs the user agent may fetch.
pub mod Closed
use Prim.Native.String.{◌++◌ as append}
use agentic_sec_blog_publish.Prelude.{
  ℕ, zero, suc, String, Bool, true, false, not, ◌||◌, ◌==◌, Option, none, some, List, [], ◌∷◌, eqb,
  length, if◌then◌else◌, Result, ok, err, ◌>>=◌,
}
use agentic_sec_blog_publish.Models.Sources.{is_given}
use agentic_sec_blog_publish.Sources.{RegistryError, SplitResult, host_text, validate_url}
use agentic_sec_blog_publish.Collection.{Response, FetchError}
use agentic_sec_blog_publish.Collection.Reads.{read_bounded}
use agentic_sec_blog_publish.Collection.Http.{Site, Reply, unreachable, answered, first_part}

abbrev pub Parser : Type 0
Parser = String → Bool

-- How an attempt ends: in an exception that is caught, in None, or with a parser.
pub data Verdict : Type 0 where
  caught no_rules : Verdict
  parsed : Parser → Verdict

-- `_parsers`, the latest first, and the URLs requested.
pub record Robots : Type 0 where
  pub parsers : List (String × Option Parser)
  pub requests : List String

abbrev pub lookup : String → List (String × Option Parser) → Option (Option Parser)
lookup origin [] = none
lookup origin ((key, parser) ∷ rest) = if key == origin then some parser else lookup origin rest

-- `parser is not None and parser.can_fetch(user_agent, canonical)`
abbrev pub can_fetch : Option Parser → String → Bool
can_fetch none url = false
can_fetch (some parser) url = parser url

module _ (site : Site) (rules : String → Parser) (source_id : String) where
  abbrev pub valid : String → Result RegistryError String
  valid url = validate_url site.urls site.sources source_id url

  abbrev pub parse : Option String → Verdict
  parse none = caught
  parse (some text) = parsed (rules text)

  abbrev pub parse_read : Result FetchError (List ℕ) → Verdict
  parse_read (err e) = caught
  parse_read (ok content) = parse (site.web.decode content)

  -- The checks on a response that is no redirect.
  unfoldable pub read_rules : Response → Verdict
  read_rules response =
      if response.is_refused
      then caught
      else if not (site.web.lower (first_part response.content_type) == "text/plain")
      then no_rules
      else parse_read (read_bounded site.web response site.limits.max_response_bytes)

  abbrev pub Progress : Type 0
  Progress = Verdict × String × List String

  abbrev pub follow_to :
      (String → List String → Progress)
      → String
      → List String
      → Result RegistryError String
      → Progress
  follow_to next current requests (err e) = (caught, current, requests)
  follow_to next current requests (ok url) = next url requests

  -- What an answer to `current` leads to, with `left` redirects left.
  abbrev pub after_reply :
      (String → List String → Progress) → ℕ → String → List String → Reply → Progress
  after_reply next left current requests unreachable = (caught, current, requests)
  after_reply next left current requests (answered response) =
      if response.is_redirect
      then if not (is_given response.location) || eqb left 0
        then (no_rules, current, requests)
        else follow_to next current requests
            (valid (site.web.urljoin response.request_url (host_text response.location)))
      else (read_rules response, current, requests)

  abbrev pub ask : List String → String → Reply
  ask requests url = (site.serve (length requests) url).0

  -- The loop over the redirects. `current` keeps its value from attempt to attempt.
  unfoldable pub robots_hops : ℕ → String → List String → Progress
  unfolding read_rules
  robots_hops zero current requests =
      after_reply (λ url after. (no_rules, url, after)) zero current (current ∷ requests)
        (ask requests current)
  robots_hops (suc left) current requests =
      after_reply (λ url after. robots_hops left url after) (suc left) current (current ∷ requests)
        (ask requests current)

  abbrev pub or_again :
      (String → List String → Option Parser × List String) → Progress → Option Parser × List String
  or_again next (caught, current, requests) = next current requests
  or_again next (no_rules, current, requests) = (none, requests)
  or_again next (parsed parser, current, requests) = (some parser, requests)

  -- The loop over the attempts, with `left` left after this one.
  unfoldable pub robots_attempts : ℕ → String → List String → Option Parser × List String
  unfolding robots_hops
  robots_attempts zero current requests =
      or_again (λ url after. (none, after)) (robots_hops site.limits.max_redirects current requests)
  robots_attempts (suc left) current requests =
      or_again (λ url after. robots_attempts left url after)
        (robots_hops site.limits.max_redirects current requests)

  -- `self._parsers[origin] = self._fetch(origin, user_agent)`, which raises before any request
  -- where the URL of robots.txt is not the source's.
  abbrev pub fetch_rules : Robots → String → Result RegistryError String → Robots
  fetch_rules robots origin (err e) = robots
  fetch_rules robots origin (ok url) =
      let fetched = robots_attempts site.limits.max_retries url robots.requests in
      record { parsers = (origin, fetched.0) ∷ robots.parsers; requests = fetched.1 }

  abbrev pub rules_or_fetch : Option (Option Parser) → Robots → String → Robots
  rules_or_fetch (some parser) robots origin = robots
  rules_or_fetch none robots origin =
      fetch_rules robots origin (valid (append origin "/robots.txt"))

  unfoldable pub with_rules : Robots → String → Robots
  unfolding robots_attempts
  with_rules robots origin = rules_or_fetch (lookup origin robots.parsers) robots origin

  abbrev pub decide : Option (Option Parser) → String → Bool
  decide none url = false
  decide (some parser) url = can_fetch parser url

  -- The canonical form of a URL with its origin.
  unfoldable pub located : String → Result RegistryError (String × String)
  located url = do
    canonical ← valid url
    parts ← site.urls.urlsplit canonical
    ok (canonical, append parts.scheme (append "://" parts.netloc))

  abbrev pub allowed_at : Robots → Result RegistryError (String × String) → Bool × Robots
  allowed_at robots (err e) = (false, robots)
  allowed_at robots (ok (canonical, origin)) =
      let after = with_rules robots origin in
      (decide (lookup origin after.parsers) canonical, after)

  unfoldable pub allowed : Robots → String → Bool × Robots
  unfolding with_rules located
  allowed robots url = allowed_at robots (located url)
