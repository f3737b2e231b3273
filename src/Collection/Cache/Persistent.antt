-- ===== src/Collection/Cache/Persistent.antt =====
-- `PersistentRetrievalCache` over a directory, against the dictionary of `RetrievalCache`.
use agentic_sec_blog_publish.Prelude.{
  ℕ, ◌≡◌, refl, String, false, ◌==◌, eq_iff, eq_refl, Option, none, List, [], ◌∷◌, if◌then◌else◌,
  Bool-cases, inl, inr, arith,
}
use agentic_sec_blog_publish.Collection.{CachedResponse}
use agentic_sec_blog_publish.Collection.Cache.{
  RetrievalCache, get, put, Files, read_files, write_files, replace_body, replace_metadata,
}

-- The pairs of files below the root, by their key.
abbrev pub Directory : Type 0
Directory = String → Files

abbrev pub empty_directory : Directory
empty_directory key = record { body = none; metadata = none }

-- `digest` is of a body, `key` of a URI.
module _ (digest : List ℕ → String) (key : String → String) where
  unfoldable pub put_files : ℕ → Directory → String → CachedResponse → Directory
  unfolding write_files
  put_files now directory uri r k =
      if k == key uri then write_files digest none now r (directory (key uri)) else directory k

  unfoldable pub get_files : ℕ → Directory → String → Option CachedResponse
  unfolding read_files
  get_files now directory uri = read_files digest none now (directory (key uri))

  -- Each `put`, with its time.
  abbrev pub put_each : List (ℕ × String × CachedResponse) → Directory → Directory
  put_each [] directory = directory
  put_each ((now, uri, r) ∷ more) directory = put_each more (put_files now directory uri r)

  abbrev pub remember_each : List (ℕ × String × CachedResponse) → RetrievalCache → RetrievalCache
  remember_each [] cache = cache
  remember_each ((now, uri, r) ∷ more) cache = remember_each more (put cache uri r)

  -- The directory stands for the dictionary, at all times.
  abbrev pub Represents : Directory → RetrievalCache → Type 0
  Represents directory cache =
      (now : ℕ) (uri : String) → get_files now directory uri ≡ get cache uri

  module _ (injective : (a b : String) → key a ≡ key b → a ≡ b) where
    put-Represents :
        (now : ℕ) (directory : Directory) (cache : RetrievalCache) (uri : String)
        (r : CachedResponse)
        → Represents directory cache
        → Represents (put_files now directory uri r) (put cache uri r)
    unfolding put_files get_files read_files write_files replace_body replace_metadata
    put-Represents now directory cache uri r h later other = elim (Bool-cases (uri == other)) [
      | inl e ↦
          let same : uri ≡ other = ground (arith, eq_iff uri other) in
          rw (← same) (ground (arith, eq_refl (key uri), eq_refl uri, eq_refl (digest r.content)))
      | inr e ↦
          let apart : (key other == key uri) ≡ false =
            ground (arith, eq_iff (key other) (key uri), injective other uri, eq_iff uri other) in
          rw (apart, e) (h later other)
    ]

    each-Represents :
        (puts : List (ℕ × String × CachedResponse)) (directory : Directory) (cache : RetrievalCache)
        → Represents directory cache
        → Represents (put_each puts directory) (remember_each puts cache)
    each-Represents [] directory cache h = h
    each-Represents ((now, uri, r) ∷ more) directory cache h =
        each-Represents more (put_files now directory uri r) (put cache uri r)
          (put-Represents now directory cache uri r h)

    -- Without an age limit, and when no two URIs share a key, the persistent cache refines the dictionary:
    -- after any puts from nothing, at any times, it finds for each URI what the dictionary finds.
    pub put_each-Represents :
        (puts : List (ℕ × String × CachedResponse)) (now : ℕ) (uri : String)
        → get_files now (put_each puts empty_directory) uri ≡ get (remember_each puts []) uri
    unfolding get_files read_files
    put_each-Represents puts now uri =
        each-Represents puts empty_directory [] (λ later other. refl) now uri
