-- ===== src/Collection.antt =====
-- src/agentic_security/collection/: what its parts share. What they use of httpx, urllib.parse,
-- hashlib and Python's texts is the argument `web`; bytes are numbers.
pub mod Reads
pub mod Cache
pub mod Http
pub mod Robots
pub mod Git
pub mod Service
pub mod Examples
use agentic_sec_blog_publish.Prelude.{
  ℕ, String, Bool, true, false, Option, none, some, List, [], ◌∷◌, Result,
}
use agentic_sec_blog_publish.Models.Sources.{Snapshot}
use agentic_sec_blog_publish.Sources.{RegistryError}

pub data ℤ : Type 0 where
  pos negsuc : ℕ → ℤ

-- A response's body as it arrives: chunks, to the end or to a broken connection.
pub data Body : Type 0 where
  finished broken : Body
  chunk : List ℕ → Body → Body

pub record Response : Type 0 where
  pub is_redirect : Bool
  -- `raise_for_status()` raises.
  pub is_refused : Bool
  -- `str(response.request.url)`
  pub request_url : String
  pub location : Option String
  pub content_type : Option String
  pub content_encoding : Option String
  pub content_length : Option String
  pub body : Body

pub data FetchError : Type 0 where
  -- httpx.HTTPError
  transport_failed refused_status connection_broken too_many_redirects : FetchError
  -- ValueError
  missing_location unsupported_content_type unsupported_encoding : FetchError
  invalid_length size_limit_exceeded undecodable : FetchError
  url_refused : RegistryError → FetchError
  -- PermissionError
  robots_denied : FetchError

pub record CachedResponse : Type 0 where
  pub content : List ℕ
  pub content_type : String

-- Times are microseconds.
pub record RetrievalLimits : Type 0 where
  pub max_retries : ℕ
  pub max_response_bytes : ℕ
  pub max_redirects : ℕ
  pub min_interval : ℕ
  pub allowed_content_types : List String

pub record Web : Type 0 where
  pub lower : String → String
  pub strip : String → String
  -- `int(text)`, which raises ValueError on what is no number.
  pub int : String → Option ℤ
  -- `urljoin(base, location)`
  pub urljoin : (base location : String) → String
  -- `content.decode("utf-8")`, which raises UnicodeDecodeError.
  pub decode : List ℕ → Option String
  -- `normalize` of normalization.py, whose steps are html.unescape and regular expressions.
  pub normalize : String → String
  -- `hashlib.sha256(text.encode("utf-8")).hexdigest()`
  pub hexdigest : String → String

-- `NORMALIZER_VERSION`
abbrev pub normalizer_version : String
normalizer_version = "norm-1.0"

-- What a retriever says of the snapshot that it builds.
pub record Origin : Type 0 where
  pub snapshot_id : String
  pub source_id : String
  pub canonical_uri : String
  pub content_type : String
  pub retrieved_at : ℕ
  pub repository : Option String
  pub commit_sha : Option String
  pub file_path : Option String

unfoldable pub build_snapshot : Web → Origin → (raw_text : String) → Snapshot
build_snapshot web origin raw_text =
    let normalized = web.normalize raw_text in
    record {
      id = origin.snapshot_id;
      source_id = origin.source_id;
      canonical_uri = origin.canonical_uri;
      retrieved_at = origin.retrieved_at;
      normalizer_version = normalizer_version;
      sha256 = web.hexdigest normalized;
      content_type = origin.content_type;
      raw_content = raw_text;
      normalized_text = normalized;
      duplicate_of = none;
      repository = origin.repository;
      commit_sha = origin.commit_sha;
      file_path = origin.file_path;
    }
