-- ===== src/Publishing/Scan/Clean.antt =====
-- What no part of scanned JSON holds.
use agentic_sec_blog_publish.Prelude.{
  ℕ, ◌+◌, ◌≡◌, String, true, false, Option, none, some, inl, inr, All, All-none, ok, then_ok,
  raise_if_ok, arith, Option-cases,
}
use Prim.Native.String.{◌++◌ as append}
use agentic_sec_blog_publish.Publishing.Scan.{
  Library, UrlParts, Json, Items, Members, text, array, object, other, no_items, item, no_members,
  member, is_forbidden_key, normalize_key, hash_length, scan_json, scan_items, scan_members,
  scan_string, is_web_url,
}

mutual
  -- A value that stands in another, at any depth.
  pub data Within (part : Json) : Json → Type 0 where
    itself : Within part part
    in_array : {items : Items} → WithinItems part items → Within part (array items)
    in_object : {members : Members} → WithinMembers part members → Within part (object members)

  pub data WithinItems (part : Json) : Items → Type 0 where
    this_item :
        {value : Json} {rest : Items} → Within part value → WithinItems part (item value rest)
    later_item :
        {value : Json} {rest : Items} → WithinItems part rest → WithinItems part (item value rest)

  pub data WithinMembers (part : Json) : Members → Type 0 where
    this_member :
        {key : String} {value : Json} {rest : Members}
        → Within part value
        → WithinMembers part (member key value rest)
    later_member :
        {key : String} {value : Json} {rest : Members}
        → WithinMembers part rest
        → WithinMembers part (member key value rest)

module _ (lib : Library) where
  -- A text without a known secret, and without the credentials of a URL.
  pub record HasNoSecret (value : String) : Type 0 where
    pub not_masked : lib.masked (lib.strip value) ≡ false
    pub no_secret : All (λ pattern. pattern (lib.strip value) ≡ false) lib.known_secrets
    pub parts : UrlParts
    pub splits : lib.urlsplit (lib.strip value) ≡ some parts
    pub no_credentials :
        is_web_url lib (lib.strip value) parts ≡ true
        → (parts.username ≡ none) × (parts.password ≡ none)

  abbrev pub HasPublicKeys : Members → Type 0
  HasPublicKeys no_members = Unit
  HasPublicKeys (member key value rest) = (is_forbidden_key lib key ≡ false) × HasPublicKeys rest

  abbrev pub IsPublic : Json → Type 0
  IsPublic (text value) = HasNoSecret value
  IsPublic (object members) = HasPublicKeys members
  IsPublic _ = Unit

  scan_string-HasNoSecret :
      (allowed : Option ℕ) (value location : String)
      → scan_string lib allowed value location ≡ ok tt
      → HasNoSecret value
  unfolding scan_string
  scan_string-HasNoSecret allowed value location h =
      let stripped = lib.strip value in
      elim (Option-cases (lib.urlsplit stripped)) [
        | inl e ↦ absurd (let k = rw e at h in ground arith)
        | inr (parts, e) ↦
            let k = rw e at h in
            record {
              not_masked = ground arith;
              no_secret = All-none (λ pattern. pattern stripped) lib.known_secrets (ground arith);
              parts = parts;
              splits = e;
              no_credentials = λ w. (ground arith, ground arith);
            }
      ]

  member_ok :
      (key : String) (value : Json) (rest : Members) (location : String)
      → scan_members lib (member key value rest) location ≡ ok tt
      → (is_forbidden_key lib key ≡ false)
        × (scan_json lib
              (hash_length (normalize_key lib key))
              value
              (append location (append "." key))
            ≡ ok tt)
        × (scan_members lib rest location ≡ ok tt)
  unfolding scan_members
  member_ok key value rest location h =
      let outer = then_ok _ _ tt h in
      let inner = then_ok _ _ tt outer.1 in
      (raise_if_ok (is_forbidden_key lib key) _ outer.0, inner.0, inner.1)

  mutual
    unfolding scan_json scan_items scan_members

    json-IsPublic :
        (allowed : Option ℕ) (value : Json) (location : String)
        → scan_json lib allowed value location ≡ ok tt
        → IsPublic value
    json-IsPublic allowed (text value) location h = scan_string-HasNoSecret allowed value location h
    json-IsPublic allowed (array items) location h = tt
    json-IsPublic allowed (object members) location h = members-HasPublicKeys members location h
    json-IsPublic allowed other location h = tt

    members-HasPublicKeys :
        (members : Members) (location : String)
        → scan_members lib members location ≡ ok tt
        → HasPublicKeys members
    members-HasPublicKeys no_members location h = tt
    members-HasPublicKeys (member key value rest) location h =
        let ok_parts = member_ok key value rest location h in
        (ok_parts.0, members-HasPublicKeys rest location ok_parts.2)

  mutual
    unfolding scan_json scan_items scan_members

    -- A JSON value that passes the scan has no member, at any depth, whose key is on the list of
    -- private keys, and no text that looks masked, that matches a known form of secret, or that is a
    -- URL with credentials.
    pub scan_json-IsPublic :
        (allowed : Option ℕ) (value part : Json) (location : String)
        → scan_json lib allowed value location ≡ ok tt
        → Within part value
        → IsPublic part
    scan_json-IsPublic allowed value part location h itself = json-IsPublic allowed part location h
    scan_json-IsPublic allowed (array items) part location h (in_array w) =
        scan_items-IsPublic allowed 0 items part location h w
    scan_json-IsPublic allowed (object members) part location h (in_object w) =
        scan_members-IsPublic members part location h w

    scan_items-IsPublic :
        (allowed : Option ℕ) (index : ℕ) (items : Items) (part : Json) (location : String)
        → scan_items lib allowed index items location ≡ ok tt
        → WithinItems part items
        → IsPublic part
    scan_items-IsPublic allowed index no_items part location h w = elim w [ ]
    scan_items-IsPublic allowed index (item value rest) part location h (this_item w) =
        scan_json-IsPublic allowed value part _ (then_ok _ _ tt h).0 w
    scan_items-IsPublic allowed index (item value rest) part location h (later_item w) =
        scan_items-IsPublic allowed (index + 1) rest part location (then_ok _ _ tt h).1 w

    scan_members-IsPublic :
        (members : Members) (part : Json) (location : String)
        → scan_members lib members location ≡ ok tt
        → WithinMembers part members
        → IsPublic part
    scan_members-IsPublic no_members part location h w = elim w [ ]
    scan_members-IsPublic (member key value rest) part location h (this_member w) =
        scan_json-IsPublic (hash_length (normalize_key lib key)) value part
          (append location (append "." key)) (member_ok key value rest location h).1 w
    scan_members-IsPublic (member key value rest) part location h (later_member w) =
        scan_members-IsPublic rest part location (member_ok key value rest location h).2 w
