-- ===== src/Sources/Access.antt =====
-- Which URLs of which sources `validate_url` lets through.
use Prim.Native.String.{◌++◌ as append}
use agentic_sec_blog_publish.Prelude.{
  ℕ, ◌≡◌, ◌≢◌, refl, subst, ◌⊎◌, inl, inr, String, true, false, ◌==◌, eq_iff, Option, some, List,
  [], ◌∷◌, Memᴰ, Bool-cases, Option-cases, Result-cases, ends_with, ok, arith,
}
use agentic_sec_blog_publish.Models.Vocabulary.{input}
use agentic_sec_blog_publish.Models.Sources.{Source, is_given}
use agentic_sec_blog_publish.Sources.{
  Urls, SplitResult, by_id, get, canonicalize_url, validate_url, in_domains, is_local_host,
  host_text,
}

by_id-mem :
    (id : String) (sources : List Source) (s : Source)
    → by_id id sources ≡ some s
    → Memᴰ s sources × (s.id ≡ id)
unfolding by_id
by_id-mem id [] s h = absurd (ground arith)
by_id-mem id (x ∷ xs) s h = elim (Option-cases (by_id id xs)) [
  | inl e ↦ let k = rw e at h in (Memᴰ.head (ground arith), ground (arith, eq_iff x.id id))
  | inr (y, e) ↦
      let k : some y ≡ some s = rw e at h in
      let r = by_id-mem id xs s (ground (arith, e)) in (Memᴰ.tail r.0, r.1)
]

pub get-mem :
    (sources : List Source) (id : String) (s : Source)
    → get sources id ≡ ok s
    → Memᴰ s sources × (s.id ≡ id)
unfolding get
get-mem sources id s h = elim (Option-cases (by_id id sources)) [
  | inl e ↦ absurd (let k = rw e at h in ground arith)
  | inr (y, e) ↦ by_id-mem id sources s (let k = rw e at h in ground (arith, e))
]

-- A host that a source's list of domains names, or one below it.
pub data Admits (host : String) (domains : List String) : Type 0 where
  same_host : (domain : String) → Memᴰ domain domains → host ≡ domain → Admits host domains
  below :
      (domain : String)
      → Memᴰ domain domains
      → ends_with host (append "." domain) ≡ true
      → Admits host domains

in_domains-Admits :
    (host : String) (domains : List String) → in_domains host domains ≡ true → Admits host domains
in_domains-Admits host [] h = absurd (ground arith)
in_domains-Admits host (d ∷ ds) h = elim (Bool-cases (host == d)) [
  | inl e ↦ same_host d (Memᴰ.head refl) (ground (arith, eq_iff host d))
  | inr e ↦ elim (Bool-cases (ends_with host (append "." d))) [
    | inl k ↦ below d (Memᴰ.head refl) k
    | inr k ↦ elim (in_domains-Admits host ds (ground arith)) [
      | same_host x m q ↦ same_host x (Memᴰ.tail m) q
      | below x m q ↦ below x (Memᴰ.tail m) q
    ]
  ]
]

module _ (urls : Urls) where
  -- A URL over HTTP(S), on a host that is neither local nor a non-public address.
  pub record Public (url canonical : String) : Type 0 where
    pub parts : SplitResult
    pub port : Option ℕ
    pub splits : urls.urlsplit url ≡ ok parts
    pub scheme : (urls.lower parts.scheme ≡ "http") ⊎ (urls.lower parts.scheme ≡ "https")
    pub has_host : is_given parts.hostname ≡ true
    pub not_local : is_local_host (urls.lower (host_text parts.hostname)) ≡ false
    pub is_public : urls.is_global (urls.lower (host_text parts.hostname)) ≢ some false

  canonicalize_url-Public :
      (url canonical : String) → canonicalize_url urls url ≡ ok canonical → Public url canonical
  unfolding canonicalize_url
  canonicalize_url-Public url canonical h = elim (Result-cases (urls.urlsplit url)) [
    | inr (x, e) ↦ absurd (let k = rw e at h in ground arith)
    | inl (parts, e) ↦
        let k = rw e at h in
        let scheme = urls.lower parts.scheme in
        elim (Result-cases parts.port) [
          | inr (x, q) ↦ absurd (ground arith)
          | inl (port, q) ↦ record {
            parts = parts;
            port = port;
            splits = e;
            scheme = ground (arith, eq_iff "http" scheme, eq_iff "https" scheme);
            has_host = ground arith;
            not_local = ground arith;
            is_public = λ w. ground arith;
          }
        ]
  ]

  pub record Collectable (sources : List Source) (source_id url canonical : String) : Type 0 where
    pub source : Source
    pub governed : Memᴰ source sources
    pub has_id : source.id ≡ source_id
    pub enabled : source.enabled ≡ true
    pub is_input : source.role ≡ input
    pub is_public : Public url canonical
    pub parts : SplitResult
    pub splits : urls.urlsplit canonical ≡ ok parts
    pub allowlisted : Admits (host_text parts.hostname) source.domains

  -- A URL that `validate_url` accepts for an id is of a source of the registry with that id, which is
  -- enabled and no output; it is over HTTP(S) on a host that is neither local nor a non-public
  -- address; and the host of what is returned is a domain of the source or below one.
  pub validate_url-Collectable :
      (sources : List Source) (source_id url canonical : String)
      → validate_url urls sources source_id url ≡ ok canonical
      → Collectable sources source_id url canonical
  unfolding validate_url
  validate_url-Collectable sources source_id url canonical h =
      elim (Result-cases (get sources source_id)) [
        | inr (x, e) ↦ absurd (let k = rw e at h in ground arith)
        | inl (s, e) ↦
            let k = rw e at h in
            let place = get-mem sources source_id s e in
            elim (Result-cases (canonicalize_url urls url)) [
              | inr (x, c) ↦ absurd (ground arith)
              | inl (text, c) ↦ elim (Result-cases (urls.urlsplit text)) [
                | inr (x, p) ↦ absurd (ground arith)
                | inl (parts, p) ↦
                    let same : text ≡ canonical = ground arith in
                    record {
                      source = s;
                      governed = place.0;
                      has_id = place.1;
                      enabled = ground arith;
                      is_input = ground arith;
                      is_public =
                          canonicalize_url-Public url canonical
                            (subst (λ t. canonicalize_url urls url ≡ ok t) same c);
                      parts = parts;
                      splits = subst (λ t. urls.urlsplit t ≡ ok parts) same p;
                      allowlisted =
                          in_domains-Admits (host_text parts.hostname) s.domains (ground arith);
                    }
              ]
            ]
      ]
