-- ===== src/Server/Reader/Requests.antt =====
-- The server reads the requests that `Request::encode` writes.
use packet_browser.Protocol.Request.RoundTrip.{Encodable, marker_utf8}
use packet_browser.Protocol.Request.{marker, newline, encode, split_get}
use packet_browser.Protocol.Types.{Request, get, post}
use packet_browser.Server.Reader.{
  max_line_length, max_body_size, Item, Input, Reading, read_bounded_line_until, read_exact_until,
  then_with, read_body, parse_line, read_line_then, read_request,
}
use packet_browser.Server.Reader.Quiet.{
  bytes_of, IsQuiet, Reads, read_until_eof, read_until_quiet, read_exact_quiet,
}
use packet_browser.Prelude.{
  ◌≤◌, ◌≡◌, ◌≢◌, refl, sym, ap, ◌∙◌, Bytes, true, false, List, [], ◌∷◌, ◌++◌, none, some, ok,
  length, All-append, Lacks, arith, append_assoc, codes, drop, le→ltb,
}
use packet_browser.Text.Ascii.{trim}
use packet_browser.Text.Search.{starts_with, NoStart, NoStart-append, find}
use packet_browser.Text.Split.{split_once, split_once-append, split_once-none}
use packet_browser.Text.Utf8.{is_utf8, is_utf8-append}
use packet_browser.Text.Words.{u32, to_be_bytes, be_at, be_at-to_be_bytes}

abbrev pub line_of : Request → Bytes
line_of (get url none) = codes "GET " ++ url
line_of (get url (some etag)) = codes "GET " ++ (url ++ (marker ++ etag))
line_of (post url body) = codes "POST " ++ url

abbrev pub url_of : Request → Bytes
url_of (get url etag) = url
url_of (post url body) = url

abbrev pub body_of : Request → Bytes
body_of (get url etag) = []
body_of (post url body) = body

-- What the server asks beyond the wire form: a URL, a line of at most 1024 bytes without its
-- newline and without white space at its end, and a body of at most 1 MiB.
abbrev pub IsAcceptable : Request → Type 0
IsAcceptable r =
    (url_of r ≢ [])
    × (length (line_of r) ≤ max_line_length)
    × (trim (line_of r ++ newline ∷ []) ≡ line_of r)
    × (length (body_of r) ≤ max_body_size)

-- The first line of the wire form, and what stands behind it.
abbrev behind_line : Request → Bytes
behind_line (get url etag) = []
behind_line (post url body) = to_be_bytes (u32 (length body)) ++ body

encode_split : (r : Request) → encode r ≡ line_of r ++ newline ∷ behind_line r
unfolding encode
encode_split (get url none) = sym (append_assoc (codes "GET ") url (newline ∷ []))
encode_split (get url (some etag)) =
    ap (λ s. codes "GET " ++ s)
      (ap (λ s. url ++ s) (sym (append_assoc marker etag (newline ∷ [])))
        ∙ sym (append_assoc url (marker ++ etag) (newline ∷ [])))
encode_split (post url body) = refl

ascii_utf8 :
    (is_utf8 (codes "GET ") ≡ true)
    × (is_utf8 (codes "POST ") ≡ true)
    × (is_utf8 (newline ∷ []) ≡ true)
unfolding is_utf8
ascii_utf8 = (refl, refl, refl)

-- The line is one line of valid text.
line_utf8 : (r : Request) → Encodable r → is_utf8 (line_of r ++ newline ∷ []) ≡ true
line_utf8 (get url none) (h, u, free) =
    is_utf8-append (codes "GET " ++ url) (newline ∷ [])
      (is_utf8-append (codes "GET ") url ascii_utf8.0 u) ascii_utf8.2
line_utf8 (get url (some etag)) (h, k, u, v, free) =
    is_utf8-append (line_of (get url (some etag))) (newline ∷ [])
      (is_utf8-append (codes "GET ") (url ++ (marker ++ etag)) ascii_utf8.0
        (is_utf8-append url (marker ++ etag) u (is_utf8-append marker etag marker_utf8 v)))
      ascii_utf8.2
line_utf8 (post url body) (h, u, fits) =
    is_utf8-append (codes "POST " ++ url) (newline ∷ [])
      (is_utf8-append (codes "POST ") url ascii_utf8.1 u) ascii_utf8.2

line_Lacks : (r : Request) → Encodable r → Lacks newline (line_of r)
line_Lacks (get url none) (h, u, free) = All-append _ (codes "GET ") url (omega arith) h
line_Lacks (get url (some etag)) (h, k, u, v, free) =
    All-append _ (codes "GET ") (url ++ (marker ++ etag)) (omega arith)
      (All-append _ url (marker ++ etag) h (All-append _ marker etag (omega arith) k))
line_Lacks (post url body) (h, u, fits) = All-append _ (codes "POST ") url (omega arith) h

then_with_ok :
    {A B : Type 0} {reading : Reading A} {a : A} {input : Input} (f : A → Input → Reading B)
    → reading ≡ (ok a, input)
    → then_with reading f ≡ f a input
unfolding then_with
then_with_ok f h = ap (λ r. then_with r f) h

parse_get :
    (line : Bytes) (input : Input)
    → line ≢ []
    → parse_line (codes "GET " ++ line) input
      ≡ (ok (some (split_get line (split_once line marker))), input)
unfolding parse_line starts_with
parse_get [] input h = absurd (h refl)
parse_get (c ∷ s) input h = refl

parse_post :
    (url : Bytes) (input : Input)
    → url ≢ []
    → parse_line (codes "POST " ++ url) input ≡ then_with (read_exact_until 4 input) (read_body url)
unfolding parse_line starts_with
parse_post [] input h = absurd (h refl)
parse_post (c ∷ s) input h = refl

-- The text of a GET is split where the client joined it.
split_get_tag :
    (url etag : Bytes)
    → NoStart marker url marker
    → split_get (url ++ (marker ++ etag)) (split_once (url ++ (marker ++ etag)) marker)
      ≡ get url (some etag)
unfolding split_get
split_get_tag url etag free = ap (split_get (url ++ (marker ++ etag))) (
    split_once-append marker url etag b' ' (drop 1 marker) refl
      (NoStart-append marker url marker etag (omega arith) free))

split_get_plain :
    (url : Bytes) → find url marker ≡ none → split_get url (split_once url marker) ≡ get url none
unfolding split_get
split_get_plain url free = ap (split_get url) (split_once-none url marker free)

append_nonempty : (s t : Bytes) → s ≢ [] → s ++ t ≢ []
append_nonempty [] t h k = absurd (h refl)
append_nonempty (c ∷ s) t h k = absurd (cc k)

read_exact_until_quiet :
    (items : List Item) (body rest : Bytes)
    → IsQuiet items
    → bytes_of items ≡ body ++ rest
    → Reads (read_exact_until (length body) (record { late = false; items = items })) body rest
unfolding read_exact_until
read_exact_until_quiet items body rest q e =
    read_exact_quiet items [] body rest (length body) q e refl

read_body_quiet :
    (url body : Bytes) (items : List Item) (rest : Bytes)
    → length body ≤ max_body_size
    → IsQuiet items
    → bytes_of items ≡ body ++ rest
    → Reads
        (read_body url (to_be_bytes (u32 (length body))) (record { late = false; items = items }))
        (some (post url body))
        rest
unfolding read_body
read_body_quiet url body items rest small q e =
    let announced : be_at (to_be_bytes (u32 (length body))) 0 ≡ length body =
      be_at-to_be_bytes (u32 (length body)) [] (omega arith)
      ∙ (let fits : u32 (length body) ≡ length body = omega arith in fits) in
    let r = read_exact_until_quiet items body rest q e in
    record {
      left = r.left;
      reading_is = rw announced (
          rw (le→ltb max_body_size (length body) small)
            (then_with_ok (λ b input. (ok (some (post url b)), input)) r.reading_is));
      quiet = r.quiet;
      rest_is = r.rest_is;
    }

-- The line of a request, read from a quiet stream.
read_line_quiet :
    (r : Request) (items : List Item) (rest : Bytes)
    → Encodable r
    → length (line_of r) ≤ max_line_length
    → IsQuiet items
    → bytes_of items ≡ encode r ++ rest
    → Reads
        (read_bounded_line_until (record { late = false; items = items }))
        (some (line_of r ++ newline ∷ []))
        (behind_line r ++ rest)
unfolding read_bounded_line_until
read_line_quiet r items rest w short q e =
    read_until_quiet items [] (line_of r) (behind_line r ++ rest) false q
      (e
        ∙ ap (λ s. s ++ rest) (encode_split r)
        ∙ append_assoc (line_of r) (newline ∷ behind_line r) rest)
      (line_Lacks r w) (omega (arith, short)) (line_utf8 r w)

-- What is read behind the line.
read_rest_quiet :
    (r : Request) (items : List Item) (rest : Bytes)
    → Encodable r
    → IsAcceptable r
    → IsQuiet items
    → bytes_of items ≡ behind_line r ++ rest
    → Reads (parse_line (line_of r) (record { late = false; items = items })) (some r) rest
read_rest_quiet (get url none) items rest (h, u, free) (some_url, short, trimmed, small) q e =
    record {
      left = items;
      reading_is =
          parse_get url _ some_url
          ∙ ap (λ r. (ok (some r), record { late = false; items = items }))
              (split_get_plain url free);
      quiet = q;
      rest_is = e;
    }
read_rest_quiet (get url (some etag)) items rest (h, k, u, v, free)
      (some_url, short, trimmed, small) q e =
    record {
      left = items;
      reading_is =
          parse_get (url ++ (marker ++ etag)) _ (append_nonempty url (marker ++ etag) some_url)
          ∙ ap (λ r. (ok (some r), record { late = false; items = items }))
              (split_get_tag url etag free);
      quiet = q;
      rest_is = e;
    }
read_rest_quiet (post url body) items rest w (some_url, short, trimmed, small) q e =
    let word = to_be_bytes (u32 (length body)) in
    let r = read_exact_until_quiet items word (body ++ rest) q (e ∙ append_assoc word body rest) in
    let b = read_body_quiet url body r.left rest small r.quiet r.rest_is in
    record {
      left = b.left;
      reading_is =
          parse_post url _ some_url ∙ then_with_ok (read_body url) r.reading_is ∙ b.reading_is;
      quiet = b.quiet;
      rest_is = b.rest_is;
    }

-- The server reads what `Request::encode` wrote, and nothing of what follows it: for requests that
-- the wire form carries and the server accepts, wherever the reads and the wake-ups of the poll
-- fall, if neither the deadline nor an error comes between.
pub read_request-encode :
    (r : Request) (items : List Item) (rest : Bytes)
    → Encodable r
    → IsAcceptable r
    → IsQuiet items
    → bytes_of items ≡ encode r ++ rest
    → Reads (read_request (record { late = false; items = items })) (some r) rest
unfolding read_request read_line_then
read_request-encode r items rest w acc q e =
    let (some_url, short, trimmed, small) = acc in
    let line = read_line_quiet r items rest w short q e in
    let more = read_rest_quiet r line.left rest w acc line.quiet line.rest_is in
    record {
      left = more.left;
      reading_is =
          then_with_ok read_line_then line.reading_is
          ∙ ap (λ s. parse_line s (record { late = false; items = line.left })) trimmed
          ∙ more.reading_is;
      quiet = more.quiet;
      rest_is = more.rest_is;
    }

-- At the end of a quiet stream there is no request.
pub read_request_eof :
    (items : List Item)
    → IsQuiet items
    → bytes_of items ≡ []
    → read_request (record { late = false; items = items })
      ≡ (ok none, record { late = false; items = [] })
unfolding read_request read_bounded_line_until read_line_then
read_request_eof items q e = then_with_ok read_line_then (read_until_eof items q e)
