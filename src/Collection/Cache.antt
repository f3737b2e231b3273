-- ===== src/Collection/Cache.antt =====
-- `RetrievalCache` and `PersistentRetrievalCache` of src/agentic_security/collection/base.py.
pub mod Persistent
use agentic_sec_blog_publish.Prelude.{
  ℕ, ◌+◌, ◌≡◌, ◌≢◌, String, Bool, false, not, ◌==◌, eq_iff, eq_refl, Option, none, some, List, [],
  ◌∷◌, ltb, if◌then◌else◌, Option-cases, inl, inr, arith,
}
use agentic_sec_blog_publish.Collection.{CachedResponse}

-- What a retriever relies on: a response that was put is what `get` finds, and no other is lost.
pub record Cache (C : Type 0) : Type 1 where
  pub get : C → String → Option CachedResponse
  pub put : C → String → CachedResponse → C
  pub get-put : (c : C) (uri : String) (r : CachedResponse) → get (put c uri r) uri ≡ some r
  pub get-put_other :
      (c : C) (uri other : String) (r : CachedResponse)
      → other ≢ uri
      → get (put c uri r) other ≡ get c other

-- A dictionary, as its keys with their values, the latest first.
abbrev pub RetrievalCache : Type 0
RetrievalCache = List (String × CachedResponse)

abbrev pub get : RetrievalCache → String → Option CachedResponse
get [] uri = none
get ((key, response) ∷ rest) uri = if key == uri then some response else get rest uri

abbrev pub put : RetrievalCache → String → CachedResponse → RetrievalCache
put cache uri response = (uri, response) ∷ cache

pub get-put :
    (c : RetrievalCache) (uri : String) (r : CachedResponse) → get (put c uri r) uri ≡ some r
get-put c uri r = ground (arith, eq_refl uri)

pub get-put_other :
    (c : RetrievalCache) (uri other : String) (r : CachedResponse)
    → other ≢ uri
    → get (put c uri r) other ≡ get c other
get-put_other c uri other r h = ground (arith, eq_iff uri other)

abbrev pub memory : Cache RetrievalCache
memory = record { get = get; put = put; get-put = get-put; get-put_other = get-put_other }

-- The metadata beside a stored body, where the file parses.
pub record Metadata : Type 0 where
  pub content_type : String
  pub sha256 : String
  pub stored_at : ℕ

-- The two files of a key: `<key>.body` and `<key>.json`, where they exist.
pub record Files : Type 0 where
  pub body : Option (List ℕ)
  pub metadata : Option Metadata

-- `max_age_seconds is not None and time.time() - stored_at > max_age_seconds`
abbrev pub is_too_old : Option ℕ → ℕ → ℕ → Bool
is_too_old none now stored_at = false
is_too_old (some max_age) now stored_at = ltb (max_age + stored_at) now

module _ (digest : List ℕ → String) (max_age : Option ℕ) where
  abbrev pub checked : ℕ → List ℕ → Metadata → Option CachedResponse
  checked now content metadata =
      if is_too_old max_age now metadata.stored_at
      then none
      else if not (digest content == metadata.sha256)
      then none
      else some (record { content = content; content_type = metadata.content_type })

  -- `PersistentRetrievalCache.get`, on the files of the key.
  unfoldable pub read_files : ℕ → Files → Option CachedResponse
  read_files now files = elim files.body [
    | none ↦ none
    | some content ↦ elim files.metadata [
      | none ↦ none
      | some metadata ↦ checked now content metadata
    ]
  ]

  abbrev pub metadata_of : ℕ → CachedResponse → Metadata
  metadata_of now r = record {
    content_type = r.content_type;
    sha256 = digest r.content;
    stored_at = now;
  }

  -- `os.replace(body_stage, body_path)`
  unfoldable pub replace_body : CachedResponse → Files → Files
  replace_body r files = record files { body = some r.content }

  -- `os.replace(metadata_stage, metadata_path)`
  unfoldable pub replace_metadata : ℕ → CachedResponse → Files → Files
  replace_metadata now r files = record files { metadata = some (metadata_of now r) }

  -- `PersistentRetrievalCache.put`, on the files of the key.
  unfoldable pub write_files : ℕ → CachedResponse → Files → Files
  unfolding replace_body replace_metadata
  write_files now r files = replace_metadata now r (replace_body r files)

  -- What a put wrote is what `get` finds, until it is too old; and a put that was cut off between its
  -- two files is served only where the earlier metadata is of the same bytes.
  pub read_files-write_files :
      (now later : ℕ) (r : CachedResponse) (files : Files)
      → is_too_old max_age later now ≡ false
      → (read_files later (write_files now r files) ≡ some r)
        × ((found : CachedResponse)
            → read_files later (replace_body r files) ≡ some found
            → (metadata : Metadata) × (files.metadata ≡ some metadata)
              × (digest r.content ≡ metadata.sha256)
              × (found.content ≡ r.content))
  unfolding read_files write_files replace_body replace_metadata
  read_files-write_files now later r files young = (
    rw young (ground (arith, eq_refl (digest r.content))),
    λ found h. elim (Option-cases files.metadata) [
      | inl e ↦ absurd (let k = rw e at h in ground arith)
      | inr (m, e) ↦
          let k = rw e at h in
          (m, e, ground (arith, eq_iff (digest r.content) m.sha256), ground arith)
    ],
  )
