-- ===== src/Publishing/Bundle/Examples.antt =====
-- A bundle of one JSON file, validated and published.
use agentic_sec_blog_publish.Prelude.{
  inl, ◌≡◌, refl, ◌↔◌, false, ◌==◌, none, some, List, [], ◌∷◌, Memᴰ, eqb, any, leb, if◌then◌else◌,
  chars, text_of, join, order_by, text_leb, ok, err,
}
use agentic_sec_blog_publish.Publishing.{PublicationHash}
use agentic_sec_blog_publish.Publishing.Shell.{World, run, raise_when}
use agentic_sec_blog_publish.Publishing.Remote.{
  publication_artifact_hash, existing_pr, remote_branch_exists, is_result_branch, is_hash,
  branch_hash,
}
use agentic_sec_blog_publish.Publishing.Draft.{stage, push_staged, create_and_verify_pr, publish}
use agentic_sec_blog_publish.Publishing.Examples.{manifest, world, result}
use agentic_sec_blog_publish.Publishing.Scan
use agentic_sec_blog_publish.Publishing.Scan.{
  scan_json, scan_members, scan_items, scan_string, scan_plain, is_forbidden_key, Json, text,
  object, member, no_members,
}
use agentic_sec_blog_publish.Publishing.Scan.Clean.{itself, in_object, this_member, IsPublic}
use agentic_sec_blog_publish.Publishing.Bundle.{
  File, Library, private_path, not_enumerated, actual_files, parts_leb, scan_public_file,
  check_files, read_manifest, validate_publication_bundle,
}
use agentic_sec_blog_publish.Publishing.Bundle.Valid.{IsValid, validate_publication_bundle_iff}
use agentic_sec_blog_publish.Publishing.Bundle.Published.{raised, publish-IsPublic}

abbrev patterns : Scan.Library
patterns = record {
  masked = λ value. value == "******";
  known_secrets = (λ value. value == "ghp_00000000000000000000") ∷ [];
  is_uuid = λ value. false;
  assigned = λ value. [];
  candidates = λ value. [];
  is_lower = λ c. leb 97 c;
  is_upper = λ c. false;
  is_digit = λ c. false;
  is_space = eqb 32;
  reaches_entropy = λ counts. false;
  lower = λ value. value;
  strip = λ value. value;
  word_boundaries = λ value. value;
  underscored = λ value. value;
  strip_underscores = λ value. value;
  urlsplit = λ value. some (record {
    scheme = "";
    netloc = "";
    path = value;
    query = "";
    fragment = "";
    username = none;
    password = none;
  });
  parse_qs = λ query. [];
  unquote = λ value. value;
  split_slash = λ path. path ∷ [];
}

-- {"systems": {"name": "a"}}
abbrev ledger : Json
ledger = object (member "systems" (object (member "name" (text "a") no_members)) no_members)

abbrev pub lib : Library
lib = record {
  scan = patterns;
  decode = λ raw. some (if any (eqb 1) raw then "manifest" else "ledger");
  hexdigest = λ raw. "c0ffee";
  loads = λ value. some ledger;
  model_validate_json = λ value. some manifest;
  lower = λ part. part;
  suffix = λ parts. ".json";
}

abbrev site : File
site = record { parts = "site.json" ∷ []; raw = 2 ∷ 2 ∷ 2 ∷ 2 ∷ 2 ∷ 2 ∷ 2 ∷ 2 ∷ 2 ∷ [] }

abbrev pub files : List File
files = site ∷ record { parts = "manifest.json" ∷ []; raw = 1 ∷ [] } ∷ []

accepts : validate_publication_bundle lib files ≡ ok manifest
unfolding validate_publication_bundle read_manifest check_files actual_files scan_public_file
    parts_leb scan_json scan_string scan_plain is_forbidden_key order_by text_leb join
accepts = refl

-- The files of data come before those of data-x in the order of paths, and after them in the order of
-- texts, so that the validator refuses this bundle.
abbrev hyphenated : List File
hyphenated =
    record { parts = "data" ∷ "b.json" ∷ []; raw = [] }
    ∷ record { parts = "data-x" ∷ "a.json" ∷ []; raw = [] }
    ∷ record { parts = "manifest.json" ∷ []; raw = 1 ∷ [] }
    ∷ []

abbrev sorted_hashes : List PublicationHash
sorted_hashes =
    record { path = "data-x/a.json"; sha256 = "c0ffee"; size_bytes = 0 }
    ∷ record { path = "data/b.json"; sha256 = "c0ffee"; size_bytes = 0 }
    ∷ []

refuses_hyphenated :
    validate_publication_bundle
      (record lib {
        model_validate_json = λ value. some (record manifest { files = sorted_hashes });
      })
      hyphenated
    ≡ err not_enumerated
unfolding validate_publication_bundle read_manifest check_files actual_files scan_public_file
    parts_leb scan_json scan_string scan_plain is_forbidden_key order_by text_leb join
refuses_hyphenated = refl

refuses_a_private_key :
    Scan.scan_json patterns none (object (member "token" (text "a") no_members)) "a.json"
    ≡ err (Scan.private_field "a.json.token")
unfolding scan_json is_forbidden_key
refuses_a_private_key = refl

refuses_a_private_path :
    scan_public_file lib (record { parts = "private" ∷ "a.json" ∷ []; raw = [] })
    ≡ err (private_path "private/a.json")
unfolding scan_public_file join
refuses_a_private_path = refl

validate_publication_bundle_iff_example :
    (validate_publication_bundle lib files ≡ ok manifest) ↔ IsValid lib files manifest
validate_publication_bundle_iff_example = validate_publication_bundle_iff lib files manifest

abbrev validated : World
validated = record world { bundle = raised (validate_publication_bundle lib files) }

is_bundle : validated.bundle ≡ raised (validate_publication_bundle lib files)
is_bundle = refl

publishes_validated :
    publish validated "publication" [] ≡ (ok result, (publish validated "publication" []).1)
unfolding publish publication_artifact_hash existing_pr remote_branch_exists stage push_staged
    create_and_verify_pr run raise_when branch_hash is_result_branch is_hash chars text_of join
    validate_publication_bundle read_manifest check_files actual_files scan_public_file parts_leb
    scan_json scan_string scan_plain is_forbidden_key order_by text_leb
publishes_validated = refl

site_is_listed : Memᴰ site (actual_files files)
unfolding actual_files parts_leb order_by text_leb join
site_is_listed = Memᴰ.head refl

publish-IsPublic_example : IsPublic patterns (object (member "name" (text "a") no_members))
publish-IsPublic_example =
    publish-IsPublic lib validated files "publication" result (publish validated "publication" []).1
      site "ledger" ledger (object (member "name" (text "a") no_members)) is_bundle
      publishes_validated (inl site_is_listed) refl refl refl (in_object (this_member itself))
