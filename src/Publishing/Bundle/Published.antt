-- ===== src/Publishing/Bundle/Published.antt =====
-- The validator, the scan and the publisher together.
use agentic_sec_blog_publish.Prelude.{
  ◌≡◌, ◌⊎◌, find, subst, refl, ◌∙◌, sym, inl, inr, String, true, ◌==◌, Option, some, List, [], Memᴰ,
  mem-All, any, eqb, not, ◌||◌, is_member, codes, if◌then◌else◌, Result, ok, err, ◌>>◌, raise_if,
  then_ok, arith, Result-cases,
}
use agentic_sec_blog_publish.Publishing.{
  PublicationManifest, BundleError, value_error, PublishResult,
}
use agentic_sec_blog_publish.Publishing.Shell.{Log, World}
use agentic_sec_blog_publish.Publishing.Draft.{publish}
use agentic_sec_blog_publish.Publishing.Outcome.{publish-IsOf}
use agentic_sec_blog_publish.Publishing.Scan
use agentic_sec_blog_publish.Publishing.Scan.Clean.{Within, IsPublic, scan_json-IsPublic}
use agentic_sec_blog_publish.Publishing.Bundle.{
  File, Library, is_manifest, BundleRefusal, posix, scanned, scan_json_file, scan_text,
  scan_public_file, actual_files, not_text, private_path, unapproved_type, forbidden_parts,
  forbidden_suffixes, allowed_suffixes, validate_publication_bundle,
}
use agentic_sec_blog_publish.Publishing.Bundle.Valid.{IsValid, validate_publication_bundle_iff}

-- Each refusal of the validator is a ValueError.
abbrev pub raised :
    Result BundleRefusal PublicationManifest → Result BundleError PublicationManifest
raised (ok manifest) = ok manifest
raised (err e) = err value_error

module _ (lib : Library) where
  scanned_ok : (r : Result Scan.ScanError (Unit {0})) → scanned r ≡ ok tt → r ≡ ok tt
  scanned_ok (ok u) h = refl
  scanned_ok (err e) h = absurd (ground arith)

  scan_public_file-json :
      (file : File) (text : String) (value : Scan.Json)
      → scan_public_file lib file ≡ ok tt
      → (lib.suffix file.parts == ".json") ≡ true
      → lib.decode file.raw ≡ some text
      → lib.loads text ≡ some value
      → Scan.scan_json lib.scan Option.none value (posix file) ≡ ok tt
  unfolding scan_public_file
  scan_public_file-json file text value h json d l =
      let path = posix file in
      let suffix = lib.suffix file.parts in
      let body = scan_text lib suffix path (lib.decode file.raw) in
      let kind = raise_if (not (is_member suffix allowed_suffixes)) (unapproved_type path) in
      let place =
        raise_if
          (any (λ part. is_member (lib.lower part) forbidden_parts) file.parts
            || is_member suffix forbidden_suffixes)
          (private_path path) in
      let inner = then_ok kind body tt (then_ok place (kind >> body) tt h).1 in
      let checked = rw d at inner.1 in
      let last =
        then_ok (raise_if (any (eqb 0) (codes text)) (not_text path))
          (if suffix == ".json"
            then scan_json_file lib (lib.loads text) path
            else scanned (Scan.scan_string lib.scan Option.none text path))
          tt checked in
      scanned_ok _ (rw (json, l) at last.1)

  file_scanned :
      (files : List File) (manifest : PublicationManifest) (file : File)
      → IsValid lib files manifest
      → (Memᴰ file (actual_files files) ⊎ (find is_manifest files ≡ some file))
      → scan_public_file lib file ≡ ok tt
  file_scanned files manifest file v (inl m) =
      mem-All (λ f. scan_public_file lib f ≡ ok tt) file (actual_files files) v.scanned m
  file_scanned files manifest file v (inr m) =
      let same : v.manifest_file ≡ file = let k = sym v.placed ∙ m in ground arith in
      subst (λ f. scan_public_file lib f ≡ ok tt) same v.manifest_scanned

  -- When `publish` returns a result for the files that the validator was given, no value in any of their
  -- JSON files, whether it is one of the files that the manifest lists or the manifest that was read, at any depth, has a member whose key is on the list of private keys, looks masked or like a
  -- known form of secret, or is a URL with credentials.
  pub publish-IsPublic :
      (world : World) (files : List File) (artifact_type : String) (result : PublishResult)
      (log : Log) (file : File) (text : String) (value part : Scan.Json)
      → world.bundle ≡ raised (validate_publication_bundle lib files)
      → publish world artifact_type [] ≡ (ok result, log)
      → (Memᴰ file (actual_files files) ⊎ (find is_manifest files ≡ some file))
      → (lib.suffix file.parts == ".json") ≡ true
      → lib.decode file.raw ≡ some text
      → lib.loads text ≡ some value
      → Within part value
      → IsPublic lib.scan part
  publish-IsPublic world files artifact_type result log file text value part b h m json d l w =
      let of = publish-IsOf world artifact_type result log h in
      elim (Result-cases (validate_publication_bundle lib files)) [
        | inr (x, e) ↦ absurd (let k = rw e at (sym b ∙ of.valid) in ground arith)
        | inl (manifest, e) ↦
            let v = (validate_publication_bundle_iff lib files manifest).0 e in
            scan_json-IsPublic lib.scan Option.none value part (posix file)
              (scan_public_file-json file text value (file_scanned files manifest file v m) json d
                l)
              w
      ]
