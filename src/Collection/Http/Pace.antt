-- ===== src/Collection/Http/Pace.antt =====
-- What holds of every session of a retriever: whom it asked, and how fast.
use agentic_sec_blog_publish.Prelude.{
  ℕ, ◌+◌, ◌*◌, ◌≤◌, ◌≡◌, refl, subst, ◌⊎◌, inl, inr, String, true, some, List, [], ◌∷◌, length, All,
  All-imp, Result-cases, Option-cases, ok, err, arith,
}
use agentic_sec_blog_publish.Sources.{validate_url}
use agentic_sec_blog_publish.Sources.Access.{Collectable, validate_url-Collectable}
use agentic_sec_blog_publish.Collection.Cache.{Cache}
use agentic_sec_blog_publish.Collection.Http.{
  Site, Session, Request, Reply, unreachable, answered, Outcome, validate_hop, pause, send,
  reply_to, record_reply, back_off, request, store_reply, fetch, cleared, retrieve,
}
use agentic_sec_blog_publish.Collection.Http.Trace.{
  Permitted, collected, redirect, Run, done, asks, waits, Reaches, request-Reaches,
}

module _ (site : Site) (source_id : String) where
  -- A URL that the registry admits for the source; robots.txt allows it, or the form that the
  -- registry gives it.
  pub record Allowed (url : String) : Type 0 where
    pub asked : String
    pub collectable : Collectable site.urls site.sources source_id asked url
    pub checked : String
    pub by_robots : site.allows checked ≡ true
    pub same_or_form :
        (checked ≡ url) ⊎ (validate_url site.urls site.sources source_id url ≡ ok checked)

  validate_hop-allows :
      (url canonical : String)
      → validate_hop site source_id url ≡ ok canonical
      → (validate_url site.urls site.sources source_id url ≡ ok canonical)
        × (site.allows canonical ≡ true)
  unfolding validate_hop
  validate_hop-allows url canonical h =
      elim (Result-cases (validate_url site.urls site.sources source_id url)) [
        | inr (x, e) ↦ absurd (let k = rw e at h in ground arith)
        | inl (c, e) ↦ let k = rw e at h in (ground (arith, e), ground arith)
      ]

  Permitted-Allowed : (url : String) → Permitted site source_id url → Allowed url
  Permitted-Allowed url (collected asked hop h k) =
      let r = validate_hop-allows url hop k in
      record {
        asked = asked;
        collectable = validate_url-Collectable site.urls site.sources source_id asked url h;
        checked = hop;
        by_robots = r.1;
        same_or_form = inr r.0;
      }
  Permitted-Allowed url (redirect asked k) =
      let r = validate_hop-allows asked url k in
      record {
        asked = asked;
        collectable = validate_url-Collectable site.urls site.sources source_id asked url r.0;
        checked = url;
        by_robots = r.1;
        same_or_form = inl refl;
      }

  abbrev pub AnsweredBy : ℕ → Request → Type 0
  AnsweredBy time q = (a : ℕ) → q.answered_at ≡ some a → a ≤ time

  -- Each request was sent at least the interval after the answers to all before it.
  abbrev pub Spaced : ℕ → List Request → Type 0
  Spaced interval [] = Unit
  Spaced interval (q ∷ qs) =
      All (λ p. (a : ℕ) → p.answered_at ≡ some a → a + interval ≤ q.sent_at) qs × Spaced interval qs

  pub record IsSound (st : Session) : Type 0 where
    pub allowed : All (λ q. Allowed q.url) st.requests
    pub spaced : Spaced site.limits.min_interval st.requests
    pub answered : All (AnsweredBy st.last_request_at) st.requests
    pub clock : st.last_request_at ≤ st.now

  record_reply-IsSound :
      (st : Session) (url : String) (reply : Reply) (took : ℕ)
      → Allowed url
      → IsSound st
      → st.last_request_at + site.limits.min_interval ≤ st.now
      → IsSound (record_reply site source_id st url reply (st.now + took))
  record_reply-IsSound st url unreachable took a s h = record {
    allowed = (a, s.allowed);
    spaced = (All-imp st.requests (λ q k b e. omega (arith, k b e)) s.answered, s.spaced);
    answered = (λ b e. absurd (ground arith), s.answered);
    clock = omega (arith, s.clock);
  }
  record_reply-IsSound st url (answered r) took a s h = record {
    allowed = (a, s.allowed);
    spaced = (All-imp st.requests (λ q k b e. omega (arith, k b e)) s.answered, s.spaced);
    answered = (
      λ b e. ground arith,
      All-imp st.requests (λ q k b e. omega (arith, k b e, s.clock)) s.answered,
    );
    clock = omega arith;
  }

  Run-IsSound : (s t : Session) → Run site source_id s t → IsSound s → IsSound t
  unfolding pause
  Run-IsSound s t done h = h
  Run-IsSound s t (asks url p r) h =
      let paused = pause site source_id s in
      let sound : IsSound paused = record {
        allowed = h.allowed;
        spaced = h.spaced;
        answered = h.answered;
        clock = omega (arith, h.clock);
      } in
      let took = (site.serve (length s.requests) url).1 in
      Run-IsSound (send site source_id paused url) t r (
        record_reply-IsSound paused url (reply_to site source_id paused url) took
          (Permitted-Allowed url p) sound (omega (arith, h.clock)))
  Run-IsSound s t (waits attempt r) h =
      Run-IsSound (back_off site source_id attempt s) t r (record {
        allowed = h.allowed;
        spaced = h.spaced;
        answered = h.answered;
        clock = omega (arith, h.clock);
      })

abbrev pub most_requests : Site → ℕ
most_requests site = (site.limits.max_retries + 1) * (site.limits.max_redirects + 1)

module _ (site : Site) {C : Type 0} (cache : Cache C) (source_id : String) where
  cleared-Permitted :
      (url canonical : String)
      → cleared site cache source_id url ≡ ok canonical
      → Permitted site source_id canonical
  unfolding cleared
  cleared-Permitted url canonical h =
      elim (Result-cases (validate_url site.urls site.sources source_id url)) [
        | inr (x, e) ↦ absurd (let k = rw e at h in ground arith)
        | inl (c, e) ↦
            let k = rw e at h in
            elim (Result-cases (validate_hop site source_id c)) [
              | inr (x, q) ↦ absurd (ground arith)
              | inl (hop, q) ↦
                  let same : c ≡ canonical = ground arith in
                  collected url hop
                    (subst (λ t. validate_url site.urls site.sources source_id url ≡ ok t) same e)
                    (subst (λ t. validate_hop site source_id t ≡ ok hop) same q)
            ]
      ]

  store_reply-session :
      (store : C) (canonical : String) (o : Outcome)
      → (store_reply site cache store canonical o).2 ≡ o.1
  store_reply-session store canonical (ok r, st) = refl
  store_reply-session store canonical (err e, st) = refl

  fetch-Reaches :
      (canonical : String) (store : C) (st : Session)
      → Permitted site source_id canonical
      → Reaches site source_id
          (most_requests site)
          st
          (fetch site cache source_id canonical store st).2
  unfolding fetch
  fetch-Reaches canonical store st p = elim (Option-cases (cache.get store canonical)) [
    | inr (r, e) ↦ rw (fetch, e) (record { run = done; few = omega arith })
    | inl e ↦
        let o = request site source_id canonical st in
        rw (fetch, e, store_reply-session store canonical o)
          (request-Reaches site source_id canonical st p)
  ]

  retrieve-Reaches :
      (url snapshot_id : String) (at : ℕ) (store : C) (st : Session)
      → Reaches site source_id
          (most_requests site)
          st
          (retrieve site cache source_id url snapshot_id at store st).2
  unfolding retrieve
  retrieve-Reaches url snapshot_id at store st =
      elim (Result-cases (cleared site cache source_id url)) [
        | inr (x, e) ↦ rw e (record { run = done; few = omega arith })
        | inl (canonical, e) ↦
            rw e (fetch-Reaches canonical store st (cleared-Permitted url canonical e))
      ]

  -- `retrieve` ends, whatever answers it, and sends no more requests than the attempts times the hops
  -- that the limits allow.
  pub retrieve-few :
      (url snapshot_id : String) (at : ℕ) (store : C) (st : Session)
      → length (retrieve site cache source_id url snapshot_id at store st).2.requests
        ≤ (site.limits.max_retries + 1) * (site.limits.max_redirects + 1) + length st.requests
  retrieve-few url snapshot_id at store st = (retrieve-Reaches url snapshot_id at store st).few

  -- Whatever answers it, `retrieve` keeps this of its session: each request was to a URL that the
  -- registry admits for the source and robots.txt allows, and was sent at least `min_interval` after
  -- the answers to all requests before it.
  pub retrieve-IsSound :
      (url snapshot_id : String) (at : ℕ) (store : C) (st : Session)
      → IsSound site source_id st
      → IsSound site source_id (retrieve site cache source_id url snapshot_id at store st).2
  retrieve-IsSound url snapshot_id at store st h =
      Run-IsSound site source_id st _ (retrieve-Reaches url snapshot_id at store st).run h
