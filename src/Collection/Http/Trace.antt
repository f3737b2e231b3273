-- ===== src/Collection/Http/Trace.antt =====
-- Which requests a retriever sends: their number, their URLs and their pace.
use agentic_sec_blog_publish.Prelude.{
  ℕ, zero, suc, ◌+◌, ◌*◌, ◌≤◌, ◌≡◌, refl, inl, inr, String, length, Bool-cases, Result-cases, ok,
  err, arith,
}
use agentic_sec_blog_publish.Sources.{validate_url}
use agentic_sec_blog_publish.Collection.{Response, too_many_redirects}
use agentic_sec_blog_publish.Collection.Http.{
  Site, Session, Reply, unreachable, answered, Outcome, validate_hop, given_location, pause, send,
  reply_to, record_reply, redirected, conclude, follow, back_off, retry, attempts, request,
  is_caught,
}

module _ (site : Site) (source_id : String) where
  -- A URL that the registry lets through for the source, and that robots.txt allows in the form that
  -- a second pass through the registry gives it; for a redirect, as it is.
  pub data Permitted (url : String) : Type 0 where
    collected :
        (asked hop : String)
        → validate_url site.urls site.sources source_id asked ≡ ok url
        → validate_hop site source_id url ≡ ok hop
        → Permitted url
    redirect : (asked : String) → validate_hop site source_id asked ≡ ok url → Permitted url

  -- What a retriever does between two sessions: permitted requests, each after a pause, and waits.
  pub data Run : Session → Session → Type 0 where
    done : {s : Session} → Run s s
    asks :
        {s t : Session} (url : String)
        → Permitted url
        → Run (send site source_id (pause site source_id s) url) t
        → Run s t
    waits : {s t : Session} (attempt : ℕ) → Run (back_off site source_id attempt s) t → Run s t

  Run-append : {s t u : Session} → Run s t → Run t u → Run s u
  Run-append done r = r
  Run-append (asks url p q) r = asks url p (Run-append q r)
  Run-append (waits n q) r = waits n (Run-append q r)

  -- A run with at most `most` requests.
  pub record Reaches (most : ℕ) (s t : Session) : Type 0 where
    pub run : Run s t
    pub few : length t.requests ≤ most + length s.requests

  weaken : {m n : ℕ} {s t : Session} → m ≤ n → Reaches m s t → Reaches n s t
  weaken h r = record { run = r.run; few = omega (arith, h, r.few) }

  redirected-Permitted :
      (left : ℕ) (r : Response) (url : String)
      → redirected site source_id left r ≡ ok url
      → Permitted url
  unfolding redirected
  redirected-Permitted left r url h = elim (Result-cases (given_location r.location)) [
    | inr (x, e) ↦ absurd (let k = rw e at h in ground arith)
    | inl (location, e) ↦
        redirect (site.web.urljoin r.request_url location) (let k = rw e at h in ground arith)
  ]

  conclude-Reaches :
      (next : String → Session → Outcome) (left most : ℕ) (reply : Reply) (st : Session)
      → ((url : String) (s : Session) → Permitted url → Reaches most s (next url s).1)
      → Reaches most st (conclude site source_id next left reply st).1
  conclude-Reaches next left most unreachable st step = record { run = done; few = omega arith }
  conclude-Reaches next left most (answered r) st step = elim (Bool-cases r.is_redirect) [
    | inr e ↦ simp e (record { run = done; few = omega arith })
    | inl e ↦ simp e (elim (Result-cases (redirected site source_id left r)) [
      | inr (x, q) ↦ rw q (record { run = done; few = omega arith })
      | inl (url, q) ↦ rw q (step url st (redirected-Permitted left r url q))
    ])
  ]

  record_reply-requests :
      (st : Session) (url : String) (reply : Reply) (now : ℕ)
      → length (record_reply site source_id st url reply now).requests ≡ suc (length st.requests)
  record_reply-requests st url unreachable now = refl
  record_reply-requests st url (answered r) now = refl

  send-requests :
      (st : Session) (url : String)
      → length (send site source_id st url).requests ≡ suc (length st.requests)
  send-requests st url =
      record_reply-requests st url (reply_to site source_id st url)
        (st.now + (site.serve (length st.requests) url).1)

  asks-Reaches :
      (most : ℕ) (st t : Session) (url : String)
      → Permitted url
      → Reaches most (send site source_id (pause site source_id st) url) t
      → Reaches (suc most) st t
  unfolding pause
  asks-Reaches most st t url p r = record {
    run = asks url p r.run;
    few = omega (arith, r.few, send-requests (pause site source_id st) url);
  }

  follow-Reaches :
      (left : ℕ) (url : String) (st : Session)
      → Permitted url
      → Reaches (suc left) st (follow site source_id left url st).1
  unfolding follow
  follow-Reaches zero url st p =
      let paused = pause site source_id st in
      asks-Reaches 0 st _ url p (
        conclude-Reaches (λ next after. (err too_many_redirects, after)) 0 0
          (reply_to site source_id paused url) (send site source_id paused url)
          (λ next after k. record { run = done; few = omega arith }))
  follow-Reaches (suc left) url st p =
      let paused = pause site source_id st in
      asks-Reaches (suc left) st _ url p (
        conclude-Reaches (λ next after. follow site source_id left next after) (suc left) (suc left)
          (reply_to site source_id paused url) (send site source_id paused url)
          (λ next after k. follow-Reaches left next after k))

  retry-Reaches :
      (next : Session → Outcome) (attempt first most : ℕ) (st : Session) (o : Outcome)
      → Reaches first st o.1
      → ((s : Session) → Reaches most s (next s).1)
      → Reaches (first + most) st (retry site source_id next attempt o).1
  retry-Reaches next attempt first most st (ok response, after) r step = record {
    run = r.run;
    few = omega (arith, r.few);
  }
  retry-Reaches next attempt first most st (err e, after) r step = elim (Bool-cases (is_caught e)) [
    | inr q ↦ rw q (record { run = r.run; few = omega (arith, r.few) })
    | inl q ↦
        let slept = back_off site source_id attempt after in
        let later = step slept in
        rw q (record {
          run = Run-append r.run (waits attempt later.run);
          few = omega (arith, r.few, later.few);
        })
  ]

  attempts-Reaches :
      (left attempt : ℕ) (url : String) (st : Session)
      → Permitted url
      → Reaches
          (suc left * suc site.limits.max_redirects)
          st
          (attempts site source_id left attempt url st).1
  unfolding attempts
  attempts-Reaches zero attempt url st p =
      weaken (omega (arith)) (follow-Reaches site.limits.max_redirects url st p)
  attempts-Reaches (suc left) attempt url st p =
      let most = suc site.limits.max_redirects in
      let first = follow site source_id site.limits.max_redirects url st in
      let r =
        retry-Reaches (λ after. attempts site source_id left (suc attempt) url after) attempt most
          (suc left * most) st first (follow-Reaches site.limits.max_redirects url st p)
          (λ after. attempts-Reaches left (suc attempt) url after p) in
      weaken (omega (arith)) r

  -- A request goes on from its session by pauses and requests to permitted URLs, no more of them than
  -- the attempts times the hops.
  pub request-Reaches :
      (canonical : String) (st : Session)
      → Permitted canonical
      → Reaches
          ((site.limits.max_retries + 1) * (site.limits.max_redirects + 1))
          st
          (request site source_id canonical st).1
  unfolding request
  request-Reaches canonical st p =
      weaken (omega arith) (attempts-Reaches site.limits.max_retries 0 canonical st p)
