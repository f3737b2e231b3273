-- ===== src/Collection/Reads.antt =====
-- `_read_bounded` of src/agentic_security/collection/http.py.
use agentic_sec_blog_publish.Prelude.{
  ℕ, ◌+◌, ◌≤◌, ◌≡◌, ◌∙◌, refl, sym, ap, append_assoc, append-nil, length-append, subst, String, not,
  ltb, Option, none, some, List, [], ◌∷◌, ◌++◌, length, is_member, if◌then◌else◌, Option-cases, inl,
  inr, ◌↔◌, Result, ok, err, ◌>>◌, raise_if, arith,
}
use agentic_sec_blog_publish.Collection.{
  ℤ, pos, negsuc, Body, finished, broken, chunk, Response, FetchError, connection_broken,
  unsupported_encoding, invalid_length, size_limit_exceeded, Web,
}

-- `for chunk in response.iter_bytes()`, where `content` was read before.
unfoldable pub read_chunks : ℕ → Body → List ℕ → Result FetchError (List ℕ)
read_chunks most finished content = ok content
read_chunks most broken content = err connection_broken
read_chunks most (chunk bytes rest) content =
    let later = read_chunks most rest (content ++ bytes) in
    if ltb most (length content + length bytes) then err size_limit_exceeded else later

abbrev pub check_size : ℕ → Option ℤ → Result FetchError (Unit {0})
check_size most none = err invalid_length
check_size most (some (negsuc n)) = err invalid_length
check_size most (some (pos n)) = raise_if (ltb most n) size_limit_exceeded

module _ (web : Web) where
  abbrev pub check_encoding : Option String → Result FetchError (Unit {0})
  check_encoding none = ok tt
  check_encoding (some encoding) =
      raise_if (not (is_member (web.lower (web.strip encoding)) ("" ∷ "identity" ∷ [])))
        unsupported_encoding

  abbrev pub check_declared : ℕ → Option String → Result FetchError (Unit {0})
  check_declared most none = ok tt
  check_declared most (some declared) = check_size most (web.int declared)

  unfoldable pub read_bounded : Response → ℕ → Result FetchError (List ℕ)
  unfolding read_chunks
  read_bounded response most = do
    check_encoding response.content_encoding
    check_declared most response.content_length
    read_chunks most response.body []

-- The bytes of a body up to its end, where it has one.
abbrev pub all_bytes : Body → Option (List ℕ)
all_bytes finished = some []
all_bytes broken = none
all_bytes (chunk bytes rest) = elim (all_bytes rest) [
  | none ↦ none
  | some later ↦ some (bytes ++ later)
]

read_chunks-whole :
    (most : ℕ) (body : Body) (content bytes : List ℕ)
    → read_chunks most body content ≡ ok bytes
    → length content ≤ most
    → (rest : List ℕ) × (all_bytes body ≡ some rest)
      × (content ++ rest ≡ bytes)
      × (length bytes ≤ most)
unfolding read_chunks
read_chunks-whole most finished content bytes h k =
    let e : content ≡ bytes = ground arith in
    ([], refl, append-nil content ∙ e, subst (λ b. length b ≤ most) e k)
read_chunks-whole most broken content bytes h k = absurd (ground arith)
read_chunks-whole most (chunk new rest) content bytes h k =
    let fits : length content + length new ≤ most = ground arith in
    let h' : read_chunks most rest (content ++ new) ≡ ok bytes = ground arith in
    let r =
      read_chunks-whole most rest (content ++ new) bytes h'
        (omega (arith, length-append content new)) in
    (new ++ r.0, rw r.1 refl, sym (append_assoc content new r.0) ∙ r.2, r.3)

whole-read_chunks :
    (most : ℕ) (body : Body) (content rest : List ℕ)
    → all_bytes body ≡ some rest
    → length content + length rest ≤ most
    → read_chunks most body content ≡ ok (content ++ rest)
unfolding read_chunks
whole-read_chunks most finished content rest h k =
    let e : [] ≡ rest = ground arith in
    ap (λ b. ok b) (sym (append-nil content) ∙ ap (λ r. content ++ r) e)
whole-read_chunks most broken content rest h k = absurd (ground arith)
whole-read_chunks most (chunk new later) content rest h k = elim (Option-cases (all_bytes later)) [
  | inl e ↦ absurd (let h' = rw e at h in ground arith)
  | inr (tail, e) ↦
      let h' : new ++ tail ≡ rest = let h'' = rw e at h in ground arith in
      let n : length new + length tail ≡ length rest =
        rw (← h') (omega (arith, length-append new tail)) in
      let m : length (content ++ new) + length tail ≤ most =
        omega (arith, length-append content new) in
      let r = whole-read_chunks most later (content ++ new) tail e m in
      let j : read_chunks most later (content ++ new) ≡ ok (content ++ rest) =
        r ∙ ap (λ b. ok b) (append_assoc content new tail ∙ ap (λ b. content ++ b) h') in
      ground arith
]

-- `_read_bounded` returns these bytes exactly when the headers pass their checks, the response
-- arrives to its end, the bytes are all that it consists of, and they are no more than the limit.
pub read_bounded_iff :
    (web : Web) (response : Response) (most : ℕ) (bytes : List ℕ)
    → (read_bounded web response most ≡ ok bytes) ↔ (
        (check_encoding web response.content_encoding ≡ ok tt)
        × (check_declared web most response.content_length ≡ ok tt)
        × (all_bytes response.body ≡ some bytes)
        × (length bytes ≤ most))
unfolding read_bounded
read_bounded_iff web response most bytes = (
  λ h.
      let h' : read_chunks most response.body [] ≡ ok bytes = ground arith in
      let r = read_chunks-whole most response.body [] bytes h' (omega arith) in
      (ground arith, ground arith, subst (λ b. all_bytes response.body ≡ some b) r.2 r.1, r.3),
  λ w. rw (w.0, w.1) (whole-read_chunks most response.body [] bytes w.2 (omega (arith, w.3))),
)
