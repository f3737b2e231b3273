-- ===== src/Publishing/Scan.antt =====
-- The scans of src/agentic_security/publishing/validation.py for private fields and secrets. The
-- regular expressions, urllib.parse and the sum of `_entropy` are the argument `lib`.
pub mod Clean
use agentic_sec_blog_publish.Prelude.{
  ℕ, suc, ◌+◌, String, Bool, true, false, not, ◌&&◌, ◌||◌, ◌==◌, Option, none, some, List, [], ◌∷◌,
  leb, eqb, any, every, map, length, find, is_empty, is_member, if◌then◌else◌, text_length, codes,
  decimal, Result, ok, err, ◌>>=◌, ◌>>◌, raise_if,
}
use Prim.Native.String.{◌++◌ as append}

-- What `urlsplit` gives, with the properties that are read.
pub record UrlParts : Type 0 where
  pub scheme : String
  pub netloc : String
  pub path : String
  pub query : String
  pub fragment : String
  pub username : Option String
  pub password : Option String

pub record Library : Type 0 where
  -- MASKED_SECRET.search, KNOWN_SECRET_PATTERNS, and the fullmatch of the UUID pattern.
  pub masked : String → Bool
  pub known_secrets : List (String → Bool)
  pub is_uuid : String → Bool
  -- The groups of SECRET_ASSIGNMENT and the matches of TOKEN_CANDIDATE.
  pub assigned : String → List String
  pub candidates : String → List String
  -- `character.islower()`, `isupper`, `isdigit`, `isspace`.
  pub is_lower : ℕ → Bool
  pub is_upper : ℕ → Bool
  pub is_digit : ℕ → Bool
  pub is_space : ℕ → Bool
  -- `_entropy(value) >= 4.3`, from how often each character stands in the value.
  pub reaches_entropy : List ℕ → Bool
  pub lower : String → String
  pub strip : String → String
  -- The two substitutions of `_normalize_key`, and `strip("_")`.
  pub word_boundaries : String → String
  pub underscored : String → String
  pub strip_underscores : String → String
  -- Where `urlsplit` raises a ValueError, none.
  pub urlsplit : String → Option UrlParts
  pub parse_qs : String → List (String × List String)
  pub unquote : String → String
  pub split_slash : String → List String

pub data ScanError : Type 0 where
  masked_secret credential_content high_entropy credential_url secret_url private_field :
      (location : String) → ScanError
  invalid_url : ScanError

abbrev pub forbidden_keys : List String
forbidden_keys =
    "api_key" ∷ "api_secret" ∷ "access_token" ∷ "authorization" ∷ "auth_token" ∷ "aws_access_key_id"
    ∷ "aws_secret_access_key" ∷ "bearer_token" ∷ "client_token" ∷ "client_secret" ∷ "comments"
    ∷ "cookie" ∷ "credentials" ∷ "encryption_key" ∷ "github_token" ∷ "normalized_text" ∷ "notes"
    ∷ "password" ∷ "passwd" ∷ "personal_access_token" ∷ "private_key" ∷ "prompt" ∷ "prompts"
    ∷ "raw_content" ∷ "refresh_token" ∷ "secret" ∷ "secret_key" ∷ "service_account_key"
    ∷ "signing_key" ∷ "snapshot_id" ∷ "snapshots" ∷ "token" ∷ "trace" ∷ "traces" ∷ []

abbrev safe_placeholders : List String
safe_placeholders =
    "changeme" ∷ "example" ∷ "none" ∷ "none_found" ∷ "not_configured" ∷ "redacted" ∷ "unknown" ∷ []

-- HASH_VALUE_LENGTHS.get(key)
abbrev pub hash_length : String → Option ℕ
hash_length key =
    if key == "commit_sha"
    then some 40
    else if is_member key ("artifact_hash" ∷ "fingerprint" ∷ "sha256" ∷ "snapshot_sha256" ∷ [])
    then some 64
    else none

-- `[a-fA-F0-9]`
abbrev is_hex : ℕ → Bool
is_hex c = (leb 97 c && leb c 102) || ((leb 65 c && leb c 70) || (leb 48 c && leb c 57))

-- `_`, `+`, `/` and `=`
abbrev is_token_sign : ℕ → Bool
is_token_sign c = (eqb c 95 || eqb c 43) || (eqb c 47 || eqb c 61)

abbrev differs : ℕ → Option ℕ → Bool
differs n none = true
differs n (some m) = not (eqb n m)

abbrev one_if : Bool → ℕ
one_if b = if b then 1 else 0

-- `Counter(value)`: how often each character stands in the value.
abbrev add_to : ℕ → List (ℕ × ℕ) → List (ℕ × ℕ)
add_to c [] = (c, 1) ∷ []
add_to c ((d, n) ∷ rest) = if eqb d c then (d, suc n) ∷ rest else (d, n) ∷ add_to c rest

abbrev add_all : List ℕ → List (ℕ × ℕ) → List (ℕ × ℕ)
add_all [] counts = counts
add_all (c ∷ cs) counts = add_all cs (add_to c counts)

module _ (lib : Library) where
  abbrev pub normalize_key : String → String
  normalize_key value =
      lib.strip_underscores (lib.underscored (lib.lower (lib.word_boundaries value)))

  unfoldable pub is_forbidden_key : String → Bool
  is_forbidden_key key = is_member (normalize_key key) forbidden_keys

  abbrev classes : List ℕ → ℕ
  classes cs =
      one_if (any lib.is_lower cs)
      + (one_if (any lib.is_upper cs)
          + (one_if (any lib.is_digit cs) + one_if (any is_token_sign cs)))

  -- `_looks_like_high_entropy_token`
  unfoldable pub looks_like_token : Option ℕ → String → Bool
  looks_like_token allowed_hash_length value =
      let n = text_length value in
      if (leb 32 n && leb n 128) && every is_hex (codes value)
      then differs n allowed_hash_length
      else if lib.is_uuid value
      then false
      else leb 32 n
        && (leb 3 (classes (codes value))
            && lib.reaches_entropy (map (λ entry. entry.1) (add_all (codes value) [])))

  -- `_scan_non_url_string`
  unfoldable pub scan_plain : Option ℕ → (value location : String) → Result ScanError (Unit {0})
  unfolding looks_like_token
  scan_plain allowed_hash_length value location = do
    raise_if (lib.masked value) (masked_secret location)
    raise_if (any (λ pattern. pattern value) lib.known_secrets) (credential_content location)
    raise_if (any (λ text. not (is_member (lib.lower text) safe_placeholders)) (lib.assigned value))
        (credential_content location)
    raise_if (any (looks_like_token allowed_hash_length) (lib.candidates value))
        (high_entropy location)

  abbrev pub scan_each : List String → (location : String) → Result ScanError (Unit {0})
  scan_each [] location = ok tt
  scan_each (value ∷ values) location = do scan_plain none value location; scan_each values location

  abbrev pub scan_query :
      List (String × List String) → (location : String) → Result ScanError (Unit {0})
  scan_query [] location = ok tt
  scan_query ((key, values) ∷ rest) location = do
    raise_if (is_forbidden_key key) (secret_url location)
    scan_each values location
    scan_query rest location

  -- `if segment: _scan_non_url_string(unquote(segment), …)`
  abbrev pub scan_segments : List String → (location : String) → Result ScanError (Unit {0})
  scan_segments [] location = ok tt
  scan_segments (segment ∷ segments) location =
      let rest = scan_segments segments location in
      if segment == "" then rest else (do scan_plain none (lib.unquote segment) location; rest)

  abbrev pub is_web_url : String → UrlParts → Bool
  is_web_url text parts =
      is_member parts.scheme ("http" ∷ "https" ∷ [])
      && (not (parts.netloc == "") && not (any lib.is_space (codes text)))

  abbrev is_given : Option String → Bool
  is_given none = false
  is_given (some text) = true

  abbrev pub scan_url : UrlParts → (location : String) → Result ScanError (Unit {0})
  scan_url parts location = do
    raise_if (is_given parts.username || is_given parts.password) (credential_url location)
    scan_query (lib.parse_qs parts.query) location
    scan_segments (lib.split_slash parts.path) location
    scan_segments (parts.fragment ∷ []) location

  abbrev pub scan_split :
      Option ℕ → (stripped location : String) → Option UrlParts → Result ScanError (Unit {0})
  scan_split allowed stripped location none = err invalid_url
  scan_split allowed stripped location (some parts) =
      if is_web_url stripped parts
      then scan_url parts location
      else scan_plain allowed stripped location

  -- `_scan_string`
  unfoldable pub scan_string : Option ℕ → (value location : String) → Result ScanError (Unit {0})
  unfolding scan_plain is_forbidden_key
  scan_string allowed value location = do
    raise_if (lib.masked (lib.strip value)) (masked_secret location)
    raise_if (any (λ pattern. pattern (lib.strip value)) lib.known_secrets)
        (credential_content location)
    scan_split allowed (lib.strip value) location (lib.urlsplit (lib.strip value))

-- What `json.loads` gives; numbers, true, false and null are `other`.
mutual
  pub data Json : Type 0 where
    text : String → Json
    array : Items → Json
    object : Members → Json
    other : Json

  pub data Items : Type 0 where
    no_items : Items
    item : Json → Items → Items

  pub data Members : Type 0 where
    no_members : Members
    member : (key : String) → Json → Members → Members

-- `_scan_json`
module _ (lib : Library) where
  unfoldable mutual
    unfolding scan_string decimal is_forbidden_key

    pub scan_json : Option ℕ → Json → (location : String) → Result ScanError (Unit {0})
    scan_json allowed (text value) location = scan_string lib allowed value location
    scan_json allowed (array items) location = scan_items allowed 0 items location
    scan_json allowed (object members) location = scan_members members location
    scan_json allowed other location = ok tt

    pub scan_items : Option ℕ → ℕ → Items → (location : String) → Result ScanError (Unit {0})
    scan_items allowed index no_items location = ok tt
    scan_items allowed index (item value rest) location = do
      scan_json allowed value (append location (append "[" (append (decimal index) "]")))
      scan_items allowed (index + 1) rest location

    pub scan_members : Members → (location : String) → Result ScanError (Unit {0})
    scan_members no_members location = ok tt
    scan_members (member key value rest) location = do
      raise_if (is_forbidden_key lib key) (private_field (append location (append "." key)))
      scan_json (hash_length (normalize_key lib key)) value (append location (append "." key))
      scan_members rest location
