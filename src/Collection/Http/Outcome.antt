-- ===== src/Collection/Http/Outcome.antt =====
-- What `retrieve` accepts from the network, and the snapshot that it makes of it.
use agentic_sec_blog_publish.Prelude.{
  ℕ, zero, suc, ◌≤◌, ◌≡◌, refl, subst, inl, inr, String, true, ◌==◌, eq_iff, some, length,
  is_member, Bool-cases, Result-cases, Option-cases, Result, ok, err, arith,
}
use agentic_sec_blog_publish.Models.Sources.{Snapshot}
use agentic_sec_blog_publish.Collection.{
  Response, FetchError, CachedResponse, build_snapshot, normalizer_version, too_many_redirects,
}
use agentic_sec_blog_publish.Collection.Cache.{Cache}
use agentic_sec_blog_publish.Collection.Reads.{read_bounded, read_bounded_iff}
use agentic_sec_blog_publish.Collection.Http.{
  Site, Session, Reply, unreachable, answered, Outcome, first_part, pause, send, reply_to,
  redirected, accept, conclude, follow, back_off, retry, attempts, request, store_reply, fetch,
  cleared, http_origin, to_snapshot, retrieve, is_caught,
}

module _ (site : Site) where
  pub record WithinLimits (r : CachedResponse) : Type 0 where
    pub size : length r.content ≤ site.limits.max_response_bytes
    pub content_type : is_member r.content_type site.limits.allowed_content_types ≡ true

  abbrev Gives : Outcome → Type 0
  Gives o = (r : CachedResponse) → o.0 ≡ ok r → WithinLimits r

  module _ (source_id : String) where
    accept-WithinLimits :
        (response : Response) (r : CachedResponse)
        → accept site source_id response ≡ ok r
        → WithinLimits r
    unfolding accept
    accept-WithinLimits response r h =
        let most = site.limits.max_response_bytes in
        elim (Result-cases (read_bounded site.web response most)) [
          | inr (x, e) ↦ absurd (let k = rw e at h in ground arith)
          | inl (bytes, e) ↦
              let k = rw e at h in
              let read = (read_bounded_iff site.web response most bytes).0 e in
              let type = site.web.lower (first_part response.content_type) in
              let same : record { content = bytes; content_type = type } ≡ r = ground arith in
              subst WithinLimits same (record { size = read.3; content_type = ground arith })
        ]

    conclude-Gives :
        (next : String → Session → Outcome) (left : ℕ) (reply : Reply) (st : Session)
        → ((url : String) (s : Session) → Gives (next url s))
        → Gives (conclude site source_id next left reply st)
    conclude-Gives next left unreachable st step r h = absurd (ground arith)
    conclude-Gives next left (answered response) st step r h =
        elim (Bool-cases response.is_redirect) [
          | inr e ↦ accept-WithinLimits response r (simp e at h)
          | inl e ↦ elim (Result-cases (redirected site source_id left response)) [
            | inr (x, q) ↦ absurd (let k = simp (e, q) at h in ground arith)
            | inl (url, q) ↦ step url st r (simp (e, q) at h)
          ]
        ]

    follow-Gives :
        (left : ℕ) (url : String) (st : Session) → Gives (follow site source_id left url st)
    unfolding follow
    follow-Gives zero url st =
        let paused = pause site source_id st in
        conclude-Gives (λ next after. (err too_many_redirects, after)) 0
          (reply_to site source_id paused url) (send site source_id paused url)
          (λ next after r h. absurd (ground arith))
    follow-Gives (suc left) url st =
        let paused = pause site source_id st in
        conclude-Gives (λ next after. follow site source_id left next after) (suc left)
          (reply_to site source_id paused url) (send site source_id paused url)
          (λ next after. follow-Gives left next after)

    retry-Gives :
        (next : Session → Outcome) (attempt : ℕ) (o : Outcome)
        → Gives o
        → ((s : Session) → Gives (next s))
        → Gives (retry site source_id next attempt o)
    retry-Gives next attempt (ok response, st) g step r h = g r h
    retry-Gives next attempt (err e, st) g step r h = elim (Bool-cases (is_caught e)) [
      | inr q ↦ absurd (let k = simp q at h in ground arith)
      | inl q ↦ step (back_off site source_id attempt st) r (simp q at h)
    ]

    attempts-Gives :
        (left attempt : ℕ) (url : String) (st : Session)
        → Gives (attempts site source_id left attempt url st)
    unfolding attempts
    attempts-Gives zero attempt url st = follow-Gives site.limits.max_redirects url st
    attempts-Gives (suc left) attempt url st =
        retry-Gives (λ after. attempts site source_id left (suc attempt) url after) attempt
          (follow site source_id site.limits.max_redirects url st)
          (follow-Gives site.limits.max_redirects url st)
          (λ after. attempts-Gives left (suc attempt) url after)

    request-Gives : (url : String) (st : Session) → Gives (request site source_id url st)
    unfolding request
    request-Gives url st = attempts-Gives site.limits.max_retries 0 url st

module _ (site : Site) {C : Type 0} (cache : Cache C) where
  -- The cache holds only what the limits allow.
  abbrev pub Holds : C → Type 0
  Holds store =
      (uri : String) (r : CachedResponse) → cache.get store uri ≡ some r → WithinLimits site r

  put-Holds :
      (store : C) (uri : String) (response : CachedResponse)
      → Holds store
      → WithinLimits site response
      → Holds (cache.put store uri response)
  put-Holds store uri response h w other r e = elim (Bool-cases (other == uri)) [
    | inl k ↦
        let same : other ≡ uri = ground (arith, eq_iff other uri) in
        let there = cache.get-put store uri response in
        let e' : cache.get (cache.put store uri response) uri ≡ some r = rw same at e in
        let one : response ≡ r = ground (arith, there, e') in subst (WithinLimits site) one w
    | inr k ↦
        let there =
          cache.get-put_other store uri other response (λ q. ground (arith, eq_iff other uri)) in
        h other r (rw there at e)
  ]

  -- A snapshot of what the limits allow, with its own hash.
  pub record Collected (source_id url snapshot_id : String) (snapshot : Snapshot) : Type 0 where
    pub response : CachedResponse
    pub within : WithinLimits site response
    pub text : site.web.decode response.content ≡ some snapshot.raw_content
    pub id : snapshot.id ≡ snapshot_id
    pub source : snapshot.source_id ≡ source_id
    pub content_type : snapshot.content_type ≡ response.content_type
    pub normalized : snapshot.normalized_text ≡ site.web.normalize snapshot.raw_content
    pub hash : snapshot.sha256 ≡ site.web.hexdigest snapshot.normalized_text
    pub normalizer : snapshot.normalizer_version ≡ normalizer_version
    pub canonical : cleared site cache source_id url ≡ ok snapshot.canonical_uri

  store_reply-Holds :
      (store : C) (canonical : String) (o : Outcome)
      → Holds store
      → Gives site o
      → Holds (store_reply site cache store canonical o).1
        × ((r : CachedResponse)
            → (store_reply site cache store canonical o).0 ≡ ok r
            → WithinLimits site r)
  store_reply-Holds store canonical (ok response, st) h g =
      (put-Holds store canonical response h (g response refl), g)
  store_reply-Holds store canonical (err e, st) h g = (h, g)

  fetch-Holds :
      (source_id canonical : String) (store : C) (st : Session)
      → Holds store
      → Holds (fetch site cache source_id canonical store st).1
        × ((r : CachedResponse)
            → (fetch site cache source_id canonical store st).0 ≡ ok r
            → WithinLimits site r)
  unfolding fetch
  fetch-Holds source_id canonical store st h = elim (Option-cases (cache.get store canonical)) [
    | inr (response, e) ↦
        rw (fetch, e)
          (
            h,
            λ r k. h canonical r (
                let same : response ≡ r = ground arith in
                subst (λ x. cache.get store canonical ≡ some x) same e),
          )
    | inl e ↦
        let o = request site source_id canonical st in
        rw (fetch, e)
          (store_reply-Holds store canonical o h (request-Gives site source_id canonical st))
  ]

  to_snapshot-Collected :
      (source_id url snapshot_id canonical : String) (at : ℕ)
      (fetched : Result FetchError CachedResponse) (snapshot : Snapshot)
      → cleared site cache source_id url ≡ ok canonical
      → ((r : CachedResponse) → fetched ≡ ok r → WithinLimits site r)
      → to_snapshot site cache source_id snapshot_id canonical at fetched ≡ ok snapshot
      → Collected source_id url snapshot_id snapshot
  unfolding build_snapshot
  to_snapshot-Collected source_id url snapshot_id canonical at (err e) snapshot c w h =
      absurd (ground arith)
  to_snapshot-Collected source_id url snapshot_id canonical at (ok r) snapshot c w h =
      elim (Option-cases (site.web.decode r.content)) [
        | inl e ↦ absurd (let k = rw e at h in ground arith)
        | inr (text, e) ↦
            let k = rw e at h in
            let same : build_snapshot site.web
                  (http_origin site cache source_id snapshot_id canonical r.content_type at) text
                ≡ snapshot =
              ground arith in
            subst (Collected source_id url snapshot_id) same (record {
              response = r;
              within = w r refl;
              text = e;
              id = refl;
              source = refl;
              content_type = refl;
              normalized = refl;
              hash = refl;
              normalizer = refl;
              canonical = c;
            })
      ]

  retrieve_outcome :
      (source_id url snapshot_id : String) (at : ℕ) (store : C) (st : Session)
      → Holds store
      → Holds (retrieve site cache source_id url snapshot_id at store st).1
        × ((snapshot : Snapshot)
            → (retrieve site cache source_id url snapshot_id at store st).0 ≡ ok snapshot
            → Collected source_id url snapshot_id snapshot)
  unfolding retrieve
  retrieve_outcome source_id url snapshot_id at store st h =
      elim (Result-cases (cleared site cache source_id url)) [
        | inr (x, e) ↦ rw e (h, λ snapshot k. absurd (ground arith))
        | inl (canonical, e) ↦
            let held = fetch-Holds source_id canonical store st h in
            rw e (
              held.0,
              λ snapshot k.
                  to_snapshot-Collected source_id url snapshot_id canonical at
                    (fetch site cache source_id canonical store st).0 snapshot e held.1 k,
            )
      ]

  -- With a cache that holds only what the limits allow, a snapshot that `retrieve` returns is of a
  -- response within the limits on size and content type, for a URL that passed the checks, and it
  -- carries the hash of its own normalized text; and the cache after it again holds only such.
  pub retrieve-Collected :
      (source_id url snapshot_id : String) (at : ℕ) (store : C) (st : Session) (snapshot : Snapshot)
      → Holds store
      → (retrieve site cache source_id url snapshot_id at store st).0 ≡ ok snapshot
      → Collected source_id url snapshot_id snapshot
        × Holds (retrieve site cache source_id url snapshot_id at store st).1
  retrieve-Collected source_id url snapshot_id at store st snapshot h e =
      let r = retrieve_outcome source_id url snapshot_id at store st h in (r.1 snapshot e, r.0)
