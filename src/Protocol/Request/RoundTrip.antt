-- ===== src/Protocol/Request/RoundTrip.antt =====
-- `decode` after `encode`.
use packet_browser.Prelude.{
  ℕ, ◌+◌, ◌^◌, ◌<◌, Bytes, true, false, [], ◌∷◌, ◌++◌, none, some, ◌≡◌, refl, sym, ap, ◌∙◌,
  append_assoc, ok, arith, ◌==◌, length, drop, codes, Lacks, All, All-append, take-length,
  take-append_length, drop-append_length, drop-append_add, length-append, le→ltb,
}
use packet_browser.Protocol.Request.{
  marker, newline, encode, decode, read_line, split_get, decode_body,
}
use packet_browser.Protocol.Types.{Request, get, post}
use packet_browser.Text.Search.{starts_with, position-append_none, find, NoStart, NoStart-append}
use packet_browser.Text.Split.{split_once, split_once-append, split_once-none}
use packet_browser.Text.Utf8.{is_utf8, is_utf8-append, from_utf8-some}
use packet_browser.Text.Words.{u32, to_be_bytes, be_at, be_at-to_be_bytes}

-- What the wire form can carry: no newline in a text, no marker that could be taken for the
-- one in front of the entity tag, and a body whose length fits its four bytes.
abbrev pub Encodable : Request → Type 0
Encodable (get url none) = Lacks newline url × (is_utf8 url ≡ true) × (find url marker ≡ none)
Encodable (get url (some etag)) =
    Lacks newline url
    × Lacks newline etag
    × (is_utf8 url ≡ true)
    × (is_utf8 etag ≡ true)
    × NoStart marker url marker
Encodable (post url body) = Lacks newline url × (is_utf8 url ≡ true) × (length body < 2 ^ 32)

Lacks-test : (s : Bytes) → Lacks newline s → All (λ c. (c == newline) ≡ false) s
Lacks-test [] h = tt
Lacks-test (c ∷ s) h = (ground arith, Lacks-test s h.1)

-- A line of valid text is read whole, whatever follows its newline.
pub read_line-append :
    (head line rest : Bytes) (start : ℕ)
    → start ≡ length head
    → Lacks newline line
    → is_utf8 line ≡ true
    → read_line (head ++ (line ++ newline ∷ rest)) start ≡ ok (line, length line)
unfolding read_line
read_line-append head line rest start e h u =
    rw (drop-append_length head (line ++ newline ∷ rest) start e) (
      rw (position-append_none (λ b. b == newline) line newline rest (Lacks-test line h) refl) (
        rw (take-append_length line (newline ∷ rest) (length line) refl)
          (rw (from_utf8-some line u) refl)))

decode_get :
    (line : Bytes) (rest : Bytes)
    → Lacks newline line
    → is_utf8 line ≡ true
    → decode (codes "GET " ++ (line ++ newline ∷ rest))
      ≡ ok (split_get line (split_once line marker))
unfolding decode starts_with
decode_get line rest h u = rw (read_line-append (codes "GET ") line rest 4 refl h u)

decode_post :
    (url rest : Bytes)
    → Lacks newline url
    → is_utf8 url ≡ true
    → let input = codes "POST " ++ (url ++ newline ∷ rest) in
      decode input ≡ decode_body input url (5 + length url + 1)
unfolding decode starts_with
decode_post url rest h u = rw (read_line-append (codes "POST ") url rest 5 refl h u)

decode_body-append :
    (head url body : Bytes) (start : ℕ)
    → start ≡ length head
    → length body < 2 ^ 32
    → decode_body (head ++ (to_be_bytes (u32 (length body)) ++ body)) url start ≡ ok (post url body)
unfolding decode_body
decode_body-append head url body start e fits =
    let word = to_be_bytes (u32 (length body)) in
    let input = head ++ (word ++ body) in
    let total : length input ≡ start + 4 + length body =
      omega (arith, length-append head (word ++ body)) in
    let cut : drop start input ≡ word ++ body = drop-append_length head (word ++ body) start e in
    let announced : be_at (drop start input) 0 ≡ length body =
      ap (λ s. be_at s 0) cut
      ∙ be_at-to_be_bytes (u32 (length body)) body (omega arith)
      ∙ (let small : u32 (length body) ≡ length body = omega arith in small) in
    let rest : drop (start + 4) input ≡ body =
      drop-append_add 4 (start + 4) head (word ++ body) (omega arith) in
    rw (le→ltb (length input) (start + 4) (omega arith)) (
      rw announced (
        rw (le→ltb (length input) (start + 4 + length body) (omega arith))
          (rw rest (ap (λ s. ok (post url s)) (take-length body)))))

pub marker_utf8 : is_utf8 marker ≡ true
unfolding is_utf8
marker_utf8 = refl

-- Every request that the wire form can carry is decoded to itself: both kinds of GET and POST.
pub decode-encode : (r : Request) → Encodable r → decode (encode r) ≡ ok r
unfolding encode split_get
decode-encode (get url none) (h, u, free) =
    decode_get url [] h u ∙ rw (split_once-none url marker free)
decode-encode (get url (some etag)) (h, k, u, v, free) =
    let line = url ++ (marker ++ etag) in
    let joined : encode (get url (some etag)) ≡ codes "GET " ++ (line ++ newline ∷ []) =
      ap (λ s. codes "GET " ++ s) (sym (append_assoc url (marker ++ etag) (newline ∷ []))) in
    ap decode joined
    ∙ decode_get line []
        (All-append _ url (marker ++ etag) h (All-append _ marker etag (omega arith) k))
        (is_utf8-append url (marker ++ etag) u (is_utf8-append marker etag marker_utf8 v))
    ∙ ap (λ o. ok (split_get line o))
        (split_once-append marker url etag b' ' (drop 1 marker) refl
          (NoStart-append marker url marker etag (omega arith) free))
decode-encode (post url body) (h, u, fits) =
    let tail = to_be_bytes (u32 (length body)) ++ body in
    let head = codes "POST " ++ (url ++ newline ∷ []) in
    decode_post url tail h u
    ∙ ap (λ s. decode_body s url (5 + length url + 1))
        (ap (λ s. codes "POST " ++ s) (sym (append_assoc url (newline ∷ []) tail)))
    ∙ decode_body-append head url body (5 + length url + 1)
        (omega (arith, length-append url (newline ∷ []))) fits
