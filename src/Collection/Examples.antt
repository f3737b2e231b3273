-- ===== src/Collection/Examples.antt =====
-- The collection of one source from a server that redirects once, and what is stored of it.
use agentic_sec_blog_publish.Prelude.{
  chars, text_of, ℕ, ◌+◌, ◌*◌, ◌≤◌, ◌≡◌, ◌↔◌, refl, String, Bool, true, false, ◌==◌, eqb, none,
  some, List, [], ◌∷◌, if◌then◌else◌, ok, err, length, any, All, arith,
}
use agentic_sec_blog_publish.Models.Sources.{Source, Snapshot}
use agentic_sec_blog_publish.Sources.{by_id, validate_url}
use agentic_sec_blog_publish.Sources.Examples.{urls, docs}
use agentic_sec_blog_publish.Evidence.Examples.{snapshot}
use agentic_sec_blog_publish.Collection.{
  CachedResponse, Response, finished, chunk, RetrievalLimits, Web,
}
use agentic_sec_blog_publish.Collection.Reads.{
  read_bounded, read_bounded_iff, check_encoding, check_declared, all_bytes,
}
use agentic_sec_blog_publish.Collection.Cache.{memory}
use agentic_sec_blog_publish.Collection.Http.{Site, Session, Reply, unreachable, answered, retrieve}
use agentic_sec_blog_publish.Collection.Http.Pace.{IsSound, retrieve-few, retrieve-IsSound}
use agentic_sec_blog_publish.Collection.Cache
use agentic_sec_blog_publish.Collection.Cache.Persistent.{
  get_files, put_each, remember_each, empty_directory, put_each-Represents,
}
use agentic_sec_blog_publish.Collection.Http.Outcome.{Holds, Collected, retrieve-Collected}
use agentic_sec_blog_publish.Storage.{sync, add_snapshot, missing_reference}
use agentic_sec_blog_publish.Collection.Service.{
  Store, CollectionResult, is_same_text, not_stored, persist,
}
use agentic_sec_blog_publish.Collection.Service.Atomic.{persist-refused}
use agentic_sec_blog_publish.Collection.Service.Kept.{persist-AllAdded}

abbrev web : Web
web = record {
  lower = λ text. text;
  strip = λ text. text;
  int = λ text. none;
  urljoin = λ base location. location;
  decode = λ bytes. if eqb (length bytes) 3 then some "abc" else none;
  normalize = λ text. text;
  hexdigest = λ text. "00";
}

abbrev limits : RetrievalLimits
limits = record {
  max_retries = 1;
  max_response_bytes = 4;
  max_redirects = 1;
  min_interval = 250000;
  allowed_content_types = "text/html" ∷ [];
}

abbrev abc : List ℕ
abc = 97 ∷ 98 ∷ 99 ∷ []

abbrev page : Response
page = record {
  is_redirect = false;
  is_refused = false;
  request_url = "https://docs.example.com/a";
  location = none;
  content_type = some "text/html; charset=utf-8";
  content_encoding = none;
  content_length = none;
  body = chunk (97 ∷ 98 ∷ []) (chunk (99 ∷ []) finished);
}

abbrev moved : Response
moved = record page { is_redirect = true; location = some "https://docs.example.com/a" }

-- Unreachable at first, then a redirect, then the page.
abbrev serve : ℕ → String → Reply × ℕ
serve n url =
    if eqb n 0
    then (unreachable, 10)
    else if eqb n 1
    then (answered moved, 10)
    else (answered page, 10)

abbrev site : Site
site = record {
  web = web;
  urls = urls;
  sources = docs ∷ [];
  limits = limits;
  allows = λ url. true;
  serve = serve;
}

abbrev start : Session
start = record { now = 1000000; last_request_at = 0; requests = [] }

abbrev url : String
url = "https://docs.example.com/a"

-- Three requests: the first fails, and the retry follows the redirect.
sends_three : length (retrieve site memory "SRC-DOCS" url "SNAP-1" 7 [] start).2.requests ≡ 3
unfolding retrieve by_id chars text_of validate_url
sends_three = refl

retrieve-few_example :
    length (retrieve site memory "SRC-DOCS" url "SNAP-1" 7 [] start).2.requests
    ≤ (site.limits.max_retries + 1) * (site.limits.max_redirects + 1) + length start.requests
retrieve-few_example = retrieve-few site memory "SRC-DOCS" url "SNAP-1" 7 [] start

start-IsSound : IsSound site "SRC-DOCS" start
start-IsSound = record { allowed = tt; spaced = tt; answered = tt; clock = omega arith }

retrieve-IsSound_example :
    IsSound site "SRC-DOCS" (retrieve site memory "SRC-DOCS" url "SNAP-1" 7 [] start).2
retrieve-IsSound_example =
    retrieve-IsSound site memory "SRC-DOCS" url "SNAP-1" 7 [] start start-IsSound

empty-Holds : Holds site memory []
empty-Holds uri r h = absurd (ground arith)

abbrev snapshot_of_page : Snapshot
snapshot_of_page = record {
  id = "SNAP-1";
  source_id = "SRC-DOCS";
  canonical_uri = url;
  retrieved_at = 7;
  normalizer_version = "norm-1.0";
  sha256 = "00";
  content_type = "text/html";
  raw_content = "abc";
  normalized_text = "abc";
  duplicate_of = none;
  repository = none;
  commit_sha = none;
  file_path = none;
}

collects : (retrieve site memory "SRC-DOCS" url "SNAP-1" 7 [] start).0 ≡ ok snapshot_of_page
unfolding retrieve by_id chars text_of validate_url
collects = refl

retrieve-Collected_example :
    Collected site memory "SRC-DOCS" url "SNAP-1" snapshot_of_page
    × Holds site memory (retrieve site memory "SRC-DOCS" url "SNAP-1" 7 [] start).1
retrieve-Collected_example =
    retrieve-Collected site memory "SRC-DOCS" url "SNAP-1" 7 [] start snapshot_of_page empty-Holds
      collects

read_bounded_iff_example : (read_bounded web page 4 ≡ ok abc) ↔ (
    (check_encoding web none ≡ ok tt)
    × (check_declared web 4 none ≡ ok tt)
    × (all_bytes page.body ≡ some abc)
    × (length abc ≤ 4))
read_bounded_iff_example = read_bounded_iff web page 4 abc

abbrev empty : Store
empty = record {
  ledger = record {
    systems = [];
    agents = [];
    sources = [];
    snapshots = [];
    evidence = [];
    lifecycle_events = [];
    methodology_versions = [];
    structured_diffs = [];
    taxonomy_versions = [];
    assertions = [];
    assertion_evidence = [];
    observations = [];
    contradiction_flags = [];
    contradiction_resolutions = [];
    reviews = [];
    confirmed_changes = [];
  };
  files = [];
}

abbrev fetched : List (Source × Snapshot)
fetched = (docs, snapshot) ∷ (docs, record snapshot { id = "SNAP-2" }) ∷ []

abbrev same_id : Source → Source → Bool
same_id a b = a.id == b.id

-- The second snapshot has the text of the first.
abbrev stored : CollectionResult
stored = record {
  fetched_count = 2;
  persisted_count = 1;
  duplicate_count = 1;
  source_ids = "SRC-DOCS" ∷ "SRC-DOCS" ∷ [];
}

stores_one : (persist same_id fetched empty).0 ≡ ok stored
unfolding persist sync add_snapshot
stores_one = refl

persist-AllAdded_example :
    All
      (λ f. any (is_same_text f.1) (((persist same_id fetched empty).1).ledger).snapshots ≡ true)
      fetched
    × (stored.fetched_count ≡ length fetched)
    × (stored.persisted_count + stored.duplicate_count ≡ length fetched)
persist-AllAdded_example = persist-AllAdded same_id fetched empty stored stores_one

-- The second snapshot is of a source that was not fetched.
abbrev foreign : List (Source × Snapshot)
foreign = (docs, snapshot) ∷ (docs, record snapshot { id = "SNAP-2"; source_id = "SRC-OTHER" }) ∷ []

refuses_foreign : (persist same_id foreign empty).0 ≡ err (not_stored missing_reference)
unfolding persist sync add_snapshot
refuses_foreign = refl

persist-refused_example : (persist same_id foreign empty).1 ≡ empty
persist-refused_example =
    persist-refused same_id foreign empty missing_reference (refl, (refl, tt)) refuses_foreign

-- A page, another, and the first again.
abbrev puts : List (ℕ × String × CachedResponse)
puts =
    (5, "u", record { content = abc; content_type = "text/html" })
    ∷ (6, "v", record { content = []; content_type = "text/html" })
    ∷ (7, "u", record { content = []; content_type = "text/plain" })
    ∷ []

put_each-Represents_example :
    get_files
      (λ body. "00")
      (λ uri. uri)
      9
      (put_each (λ body. "00") (λ uri. uri) puts empty_directory)
      "u"
    ≡ Cache.get (remember_each (λ body. "00") (λ uri. uri) puts []) "u"
put_each-Represents_example =
    put_each-Represents (λ body. "00") (λ uri. uri) (λ a b h. h) puts 9 "u"
