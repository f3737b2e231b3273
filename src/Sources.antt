-- ===== src/Sources.antt =====
-- src/agentic_security/sources/registry.py: the governed sources, and which URLs may be collected.
-- What it uses of urllib.parse, ipaddress and Python's texts is the argument `urls`.
pub mod Access
pub mod Loaded
pub mod Examples
use Prim.Native.String.{◌++◌ as append}
use agentic_sec_blog_publish.Prelude.{
  ℕ, String, Bool, true, false, not, ◌&&◌, ◌||◌, ◌==◌, Option, none, some, List, [], ◌∷◌, any,
  is_same, if◌then◌else◌, is_member, decimal, ends_with, Result, ok, err, ◌>>=◌, ◌>>◌, raise_if,
}
use agentic_sec_blog_publish.Models.Vocabulary.{
  ClaimPurpose, ClaimPurpose-discrete, SubjectType, SubjectType-discrete,
}
use agentic_sec_blog_publish.Models.Sources.{
  Source, SourceError, is_self, is_output, is_given, approval_is_required,
}

pub data RegistryError : Type 0 where
  invalid_url unsupported_url prohibited_host prohibited_address : RegistryError
  unknown_source source_disabled publication_output domain_not_allowlisted : RegistryError
  claim_prohibited claim_not_allowed missing_host : RegistryError
  invalid_source : SourceError → RegistryError

-- `SplitResult`, with its properties `hostname` and `port`.
pub record SplitResult : Type 0 where
  pub scheme : String
  pub netloc : String
  pub path : String
  pub query : String
  pub hostname : Option String
  -- A port that is no number in range raises ValueError.
  pub port : Result RegistryError (Option ℕ)

pub record Urls : Type 0 where
  pub lower : String → String
  -- `path.rstrip("/")`
  pub rstrip_slashes : String → String
  -- `urlsplit`, which raises ValueError on some texts.
  pub urlsplit : String → Result RegistryError SplitResult
  -- `urlunsplit(SplitResult(scheme, netloc, path, query, ""))`
  pub urlunsplit : (scheme netloc path query : String) → String
  -- `ip_address(host).is_global`, where the host is an address.
  pub is_global : String → Option Bool

abbrev pub host_text : Option String → String
host_text none = ""
host_text (some host) = host

abbrev pub local_suffixes : List String
local_suffixes = ".localhost" ∷ ".local" ∷ ".internal" ∷ []

-- `host == "localhost" or host.endswith((".localhost", ".local", ".internal"))`
abbrev pub is_local_host : String → Bool
is_local_host host = (host == "localhost") || any (λ suffix. ends_with host suffix) local_suffixes

abbrev pub is_refused_address : Option Bool → Bool
is_refused_address none = false
is_refused_address (some is_global) = not is_global

abbrev pub netloc_of : String → Option ℕ → String
netloc_of host none = host
netloc_of host (some port) = append host (append ":" (decimal port))

-- `source.domains` admits the host: one of them, or a host below one.
abbrev pub in_domains : String → List String → Bool
in_domains host domains =
    any (λ domain. (host == domain) || ends_with host (append "." domain)) domains

-- `self._by_id.get(source_id)`: of two sources with one id, the dictionary holds the later.
unfoldable pub by_id : String → List Source → Option Source
by_id source_id [] = none
by_id source_id (source ∷ sources) =
    let later = by_id source_id sources in
    elim later [ some s ↦ some s | none ↦ if source.id == source_id then some source else none ]

abbrev pub known : Option Source → Result RegistryError Source
known none = err unknown_source
known (some source) = ok source

unfoldable pub get : List Source → String → Result RegistryError Source
get sources source_id = known (by_id source_id sources)

module _ (urls : Urls) where
  -- `parts.path or "/"`, without a slash at its end.
  abbrev pub trimmed_path : String → String
  trimmed_path path =
      if path == "" then "/" else if path == "/" then path else urls.rstrip_slashes path

  unfoldable pub canonicalize_url : String → Result RegistryError String
  canonicalize_url url = do
    parts ← urls.urlsplit url
    raise_if
        (not (is_member (urls.lower parts.scheme) ("http" ∷ "https" ∷ []))
          || not (is_given parts.hostname))
        unsupported_url
    raise_if (is_local_host (urls.lower (host_text parts.hostname))) prohibited_host
    raise_if (is_refused_address (urls.is_global (urls.lower (host_text parts.hostname))))
        prohibited_address
    port ← parts.port
    ok (
        urls.urlunsplit (urls.lower parts.scheme)
          (netloc_of (urls.lower (host_text parts.hostname)) port) (trimmed_path parts.path)
          parts.query)

  unfoldable pub validate_url : List Source → (source_id url : String) → Result RegistryError String
  unfolding canonicalize_url get
  validate_url sources source_id url = do
    source ← get sources source_id
    raise_if (not source.enabled) source_disabled
    raise_if (is_output source.role) publication_output
    canonical ← canonicalize_url url
    parts ← urls.urlsplit canonical
    raise_if (not (in_domains (host_text parts.hostname) source.domains)) domain_not_allowlisted
    ok canonical

  -- `output_urls[source_id]`, where the dictionary has the id.
  abbrev pub output_url : (canonical source_id : String) → Option String
  output_url canonical source_id =
      if source_id == "SRC-ASI-PUBLICATION-SITE"
      then some canonical
      else if source_id == "SRC-ASI-PUBLICATION-RSS"
      then some (append (urls.rstrip_slashes canonical) "/rss.xml")
      else if source_id == "SRC-ASI-PUBLICATION-ATOM"
      then some (append (urls.rstrip_slashes canonical) "/atom.xml")
      else none

  abbrev pub moved_to : Option String → String → Source → Source
  moved_to none host source = source
  moved_to (some url) host source = record source { base_url = some url; domains = host ∷ [] }

  abbrev pub relocate : (canonical host : String) → List Source → List Source
  relocate canonical host [] = []
  relocate canonical host (source ∷ sources) =
      moved_to (output_url canonical source.id) host source ∷ relocate canonical host sources

  abbrev pub host_of : Option String → Result RegistryError String
  host_of none = err missing_host
  host_of (some host) = ok host

  abbrev pub relocated : Option String → List Source → Result RegistryError (List Source)
  relocated none sources = ok sources
  relocated (some url) sources = do
    canonical ← canonicalize_url url
    parts ← urls.urlsplit canonical
    host ← host_of parts.hostname
    ok (relocate canonical host sources)

-- `Source.model_validate` of one source, whose fields have their types.
abbrev pub validated : Result SourceError Source → Result RegistryError Source
validated (ok source) = ok source
validated (err e) = err (invalid_source e)

unfoldable pub validate_all : List Source → Result RegistryError (List Source)
validate_all [] = ok []
validate_all (source ∷ sources) = do
  first ← validated (approval_is_required source)
  rest ← validate_all sources
  ok (first ∷ rest)

-- `from_yaml`, on the sources that the file lists.
unfoldable pub from_yaml :
    Urls → (publication_base_url : Option String) → List Source → Result RegistryError (List Source)
unfolding canonicalize_url validate_all
from_yaml urls publication_base_url items = do
  moved ← relocated urls publication_base_url items
  validate_all moved

unfoldable pub validate_claim_type :
    List Source → String → SubjectType → Result RegistryError (Unit {0})
unfolding get
validate_claim_type sources source_id claim_type = do
  source ← get sources source_id
  raise_if (any (is_same SubjectType-discrete claim_type) source.policy.prohibited_claim_types)
      claim_prohibited
  raise_if (not (any (is_same SubjectType-discrete claim_type) source.policy.allowed_claim_types))
      claim_not_allowed

unfoldable pub validate_claim_purpose :
    List Source → String → ClaimPurpose → Result RegistryError (Unit {0})
unfolding get
validate_claim_purpose sources source_id purpose = do
  source ← get sources source_id
  raise_if (any (is_same ClaimPurpose-discrete purpose) source.policy.prohibited_claim_purposes)
      claim_prohibited
  raise_if (not (any (is_same ClaimPurpose-discrete purpose) source.policy.allowed_claim_purposes))
      claim_not_allowed

unfoldable pub can_be_independent : List Source → String → Result RegistryError Bool
unfolding get
can_be_independent sources source_id = do
  source ← get sources source_id
  ok source.policy.usable_as_independent_evidence

unfoldable pub can_contribute_evidence : List Source → String → Result RegistryError Bool
unfolding get
can_contribute_evidence sources source_id = do
  source ← get sources source_id
  ok (not (is_output source.role) && not (is_self source.trust_class))
