-- ===== src/Sources/Examples.antt =====
-- The registry at one source, with a toy parser of URLs.
use Prim.Native.String.{◌++◌ as append}
use agentic_sec_blog_publish.Prelude.{
  chars, text_of, ◌≡◌, refl, String, true, false, ◌==◌, none, some, [], ◌∷◌, if◌then◌else◌, ok, err,
  Result,
}
use agentic_sec_blog_publish.Models.Vocabulary.{
  TrustClass, RegistryStatus, SourceKind, SourceRole, ClaimPurpose, SubjectType,
}
use agentic_sec_blog_publish.Models.Sources.{Source, approval_is_required}
use agentic_sec_blog_publish.Sources.{
  Urls, SplitResult, RegistryError, invalid_url, domain_not_allowlisted, by_id, validate_url,
  from_yaml, can_be_independent,
}
use agentic_sec_blog_publish.Sources.Access.{Collectable, validate_url-Collectable}

abbrev pub split : String → String → Result RegistryError SplitResult
split host path = ok (record {
  scheme = "https";
  netloc = host;
  path = path;
  query = "";
  hostname = some host;
  port = ok none;
})

-- Knows the URLs of the examples.
abbrev pub toy_urlsplit : String → Result RegistryError SplitResult
toy_urlsplit url =
    if url == "https://docs.example.com/a"
    then split "docs.example.com" "/a"
    else if url == "https://docs.example.com/robots.txt"
    then split "docs.example.com" "/robots.txt"
    else if url == "https://evil.example.org/"
    then split "evil.example.org" "/"
    else err invalid_url

abbrev pub urls : Urls
urls = record {
  lower = λ text. text;
  rstrip_slashes = λ text. text;
  urlsplit = toy_urlsplit;
  urlunsplit = λ scheme netloc path query. append scheme (append "://" (append netloc path));
  is_global = λ host. none;
}

abbrev pub docs : Source
docs = record {
  id = "SRC-DOCS";
  publisher = "Example";
  name = "Docs";
  kind = SourceKind.http;
  role = SourceRole.input;
  domains = "example.com" ∷ [];
  base_url = some "https://docs.example.com/a";
  repository = none;
  trust_class = TrustClass.official;
  status = RegistryStatus.approved;
  enabled = true;
  policy = record {
    allowed_claim_types = SubjectType.capability ∷ [];
    prohibited_claim_types = [];
    allowed_claim_purposes = ClaimPurpose.documentation ∷ [];
    prohibited_claim_purposes = [];
    crawl_frequency = "daily";
    human_approval_required = false;
    usable_as_independent_evidence = true;
  };
  pinned_at = 1;
  fallback_note = "";
  derivative_of_hints = [];
  notes = "";
}

refuses_foreign_host :
    validate_url urls (docs ∷ []) "SRC-DOCS" "https://evil.example.org/"
    ≡ err domain_not_allowlisted
unfolding validate_url by_id chars text_of
refuses_foreign_host = refl

accepts_docs :
    validate_url urls (docs ∷ []) "SRC-DOCS" "https://docs.example.com/a"
    ≡ ok "https://docs.example.com/a"
unfolding validate_url by_id chars text_of
accepts_docs = refl

validate_url-Collectable_example :
    Collectable urls
      (docs ∷ [])
      "SRC-DOCS"
      "https://docs.example.com/a"
      "https://docs.example.com/a"
validate_url-Collectable_example =
    validate_url-Collectable urls (docs ∷ []) "SRC-DOCS" "https://docs.example.com/a"
      "https://docs.example.com/a" accepts_docs

loads_docs : from_yaml urls none (docs ∷ []) ≡ ok (docs ∷ [])
unfolding from_yaml approval_is_required
loads_docs = refl

is_independent : can_be_independent (docs ∷ []) "SRC-DOCS" ≡ ok true
unfolding can_be_independent by_id
is_independent = refl
