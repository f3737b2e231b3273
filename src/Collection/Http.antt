-- ===== src/Collection/Http.antt =====
-- `HttpRetriever` of src/agentic_security/collection/http.py. The network is the argument `serve`:
-- what answers the n-th request of a retriever, for a URL, and how long that takes.
pub mod Trace
pub mod Pace
pub mod Outcome
use agentic_sec_blog_publish.Prelude.{
  ℕ, zero, suc, ◌+◌, ◌-◌, ◌*◌, ◌^◌, String, Bool, true, false, not, ◌==◌, Option, none, some, List,
  [], ◌∷◌, eqb, length, if◌then◌else◌, is_member, Result, ok, err, ◌>>=◌, ◌>>◌, raise_if,
}
use text.Mathlib.Text.{find?, get?}
use agentic_sec_blog_publish.Models.Sources.{Source, Snapshot}
use agentic_sec_blog_publish.Sources.{Urls, RegistryError, validate_url}
use agentic_sec_blog_publish.Collection.{
  Response, FetchError, transport_failed, refused_status, too_many_redirects, missing_location,
  unsupported_content_type, undecodable, url_refused, robots_denied, RetrievalLimits, Web, Origin,
  CachedResponse, build_snapshot,
}
use agentic_sec_blog_publish.Collection.Cache.{Cache}
use agentic_sec_blog_publish.Collection.Reads.{read_bounded}

pub data Reply : Type 0 where
  unreachable : Reply
  answered : Response → Reply

pub record Request : Type 0 where
  pub url : String
  pub sent_at : ℕ
  -- When its answer came, where one came.
  pub answered_at : Option ℕ

-- The clock, `_last_request_at` of the source, and the requests sent, the last one first.
pub record Session : Type 0 where
  pub now : ℕ
  pub last_request_at : ℕ
  pub requests : List Request

-- The exceptions that the loop over the attempts catches.
abbrev pub is_caught : FetchError → Bool
is_caught robots_denied = false
is_caught _ = true

abbrev pub validated {ℓ} : {A : Type ℓ} → Result RegistryError A → Result FetchError A
validated (ok a) = ok a
validated (err e) = err (url_refused e)

-- `header.split(";", 1)[0]`, where the header may be missing.
abbrev pub first_part : Option String → String
first_part none = ""
first_part (some header) = elim (find? header ";") [
  | none ↦ header
  | some n ↦ elim (get? header 0 n) [ none ↦ header | some part ↦ part ]
]

abbrev pub given_location : Option String → Result FetchError String
given_location none = err missing_location
given_location (some location) = if location == "" then err missing_location else ok location

abbrev pub Outcome : Type 0
Outcome = Result FetchError CachedResponse × Session

pub record Site : Type 0 where
  pub web : Web
  pub urls : Urls
  pub sources : List Source
  pub limits : RetrievalLimits
  -- `robots.allowed(user_agent, url)`
  pub allows : String → Bool
  -- The n-th request, to a URL: what answers, after how long.
  pub serve : ℕ → String → Reply × ℕ

module _ (site : Site) (source_id : String) where
  unfoldable pub validate_hop : String → Result FetchError String
  validate_hop url = do
    canonical ← validated (validate_url site.urls site.sources source_id url)
    raise_if (not (site.allows canonical)) robots_denied
    ok canonical

  -- `wait` is what the interval still lacks.
  unfoldable pub pause : Session → Session
  pause st =
      let wait = site.limits.min_interval - (st.now - st.last_request_at) in
      record st { now = st.now + wait }

  -- The answer to a request, and the session after it: an answer sets `_last_request_at`.
  abbrev pub record_reply : Session → String → Reply → ℕ → Session
  record_reply st url unreachable now =
      let request : Request = record { url = url; sent_at = st.now; answered_at = none } in
      record st { now = now; requests = request ∷ st.requests }
  record_reply st url (answered response) now =
      let request : Request = record { url = url; sent_at = st.now; answered_at = some now } in
      record { now = now; last_request_at = now; requests = request ∷ st.requests }

  abbrev pub reply_to : Session → String → Reply
  reply_to st url = (site.serve (length st.requests) url).0

  abbrev pub send : Session → String → Session
  send st url =
      record_reply st url (reply_to st url) (st.now + (site.serve (length st.requests) url).1)

  -- The checks on a response that is no redirect.
  unfoldable pub accept : Response → Result FetchError CachedResponse
  unfolding read_bounded
  accept response = do
    raise_if response.is_refused refused_status
    let content_type = site.web.lower (first_part response.content_type) in
        do
          raise_if (not (is_member content_type site.limits.allowed_content_types))
              unsupported_content_type
          content ← read_bounded site.web response site.limits.max_response_bytes
          ok (record { content = content; content_type = content_type })

  -- Where a redirect leads, with `left` redirects left.
  unfoldable pub redirected : ℕ → Response → Result FetchError String
  unfolding validate_hop
  redirected left response = do
    location ← given_location response.location
    raise_if (eqb left 0) too_many_redirects
    validate_hop (site.web.urljoin response.request_url location)

  abbrev pub continue : (String → Session → Outcome) → Result FetchError String → Session → Outcome
  continue next (ok url) st = next url st
  continue next (err e) st = (err e, st)

  abbrev pub conclude : (String → Session → Outcome) → ℕ → Reply → Session → Outcome
  conclude next left unreachable st = (err transport_failed, st)
  conclude next left (answered response) st =
      if response.is_redirect
      then continue next (redirected left response) st
      else (accept response, st)

  -- `for redirect_count in range(max_redirects + 1)`, with `left` redirects left.
  unfoldable pub follow : ℕ → String → Session → Outcome
  unfolding redirected accept pause
  follow zero current st =
      let paused = pause st in
      conclude (λ next after. (err too_many_redirects, after)) zero (reply_to paused current)
        (send paused current)
  follow (suc left) current st =
      let paused = pause st in
      conclude (λ next after. follow left next after) (suc left) (reply_to paused current)
        (send paused current)

  -- `self.sleep(0.1 * (2**attempt))`
  abbrev pub back_off : ℕ → Session → Session
  back_off attempt st = record st { now = st.now + 100000 * 2 ^ attempt }

  abbrev pub retry : (Session → Outcome) → ℕ → Outcome → Outcome
  retry next attempt (ok response, st) = (ok response, st)
  retry next attempt (err e, st) = if is_caught e then next (back_off attempt st) else (err e, st)

  -- `for attempt in range(max_retries + 1)`, with `left` attempts left after this one.
  unfoldable pub attempts : (left attempt : ℕ) → String → Session → Outcome
  unfolding follow
  attempts zero attempt canonical st = follow site.limits.max_redirects canonical st
  attempts (suc left) attempt canonical st =
      retry (λ after. attempts left (suc attempt) canonical after) attempt
        (follow site.limits.max_redirects canonical st)

  -- `_request`
  unfoldable pub request : String → Session → Outcome
  unfolding attempts
  request canonical st = attempts site.limits.max_retries 0 canonical st

module _ (site : Site) {C : Type 0} (cache : Cache C) where
  abbrev pub store_reply : C → String → Outcome → Result FetchError CachedResponse × C × Session
  store_reply store canonical (ok response, st) =
      (ok response, cache.put store canonical response, st)
  store_reply store canonical (err e, st) = (err e, store, st)

  -- What the cache holds, or else what `_request` gets, which the cache then holds.
  unfoldable pub fetch :
      (source_id canonical : String) → C → Session → Result FetchError CachedResponse × C × Session
  unfolding request
  fetch source_id canonical store st = elim (cache.get store canonical) [
    | some response ↦ (ok response, store, st)
    | none ↦ store_reply store canonical (request site source_id canonical st)
  ]

  -- The URL to collect, with `_validate_hop` on it.
  unfoldable pub cleared : (source_id url : String) → Result FetchError String
  unfolding validate_hop
  cleared source_id url = do
    canonical ← validated (validate_url site.urls site.sources source_id url)
    hop ← validate_hop site source_id canonical
    ok canonical

  abbrev pub decoded : Option String → Result FetchError String
  decoded none = err undecodable
  decoded (some text) = ok text

  abbrev pub http_origin : (source_id snapshot_id canonical content_type : String) → ℕ → Origin
  http_origin source_id snapshot_id canonical content_type retrieved_at = record {
    snapshot_id = snapshot_id;
    source_id = source_id;
    canonical_uri = canonical;
    content_type = content_type;
    retrieved_at = retrieved_at;
    repository = none;
    commit_sha = none;
    file_path = none;
  }

  abbrev pub to_snapshot :
      (source_id snapshot_id canonical : String)
      → ℕ
      → Result FetchError CachedResponse
      → Result FetchError Snapshot
  to_snapshot source_id snapshot_id canonical retrieved_at fetched = do
    response ← fetched
    text ← decoded (site.web.decode response.content)
    ok (
        build_snapshot site.web
          (http_origin source_id snapshot_id canonical response.content_type retrieved_at) text)

  abbrev pub retrieve_cleared :
      (source_id snapshot_id : String)
      → ℕ
      → C
      → Session
      → Result FetchError String
      → Result FetchError Snapshot × C × Session
  retrieve_cleared source_id snapshot_id retrieved_at store st (err e) = (err e, store, st)
  retrieve_cleared source_id snapshot_id retrieved_at store st (ok canonical) =
      let fetched = fetch source_id canonical store st in
      (to_snapshot source_id snapshot_id canonical retrieved_at fetched.0, fetched.1, fetched.2)

  unfoldable pub retrieve :
      (source_id url snapshot_id : String)
      → ℕ
      → C
      → Session
      → Result FetchError Snapshot × C × Session
  unfolding fetch cleared build_snapshot
  retrieve source_id url snapshot_id retrieved_at store st =
      retrieve_cleared source_id snapshot_id retrieved_at store st (cleared source_id url)
