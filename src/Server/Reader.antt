-- ===== src/Server/Reader.antt =====
-- The reads of server/src/main.rs on a buffered socket: a line, a fixed number of bytes, a request.
pub mod Quiet
pub mod Requests
use packet_browser.Protocol.Request.{marker, newline, split_get}
use packet_browser.Protocol.Types.{Request, get, post}
use packet_browser.Prelude.{
  ℕ, zero, suc, ◌+◌, ◌-◌, ◌*◌, Bytes, Bool, true, false, List, [], ◌∷◌, ◌++◌, Option, none, some,
  Result, ok, err, ltb, leb, ◌==◌, if◌then◌else◌, length, drop, codes,
}
use packet_browser.Text.Ascii.{trim}
use packet_browser.Text.Search.{starts_with}
use packet_browser.Text.Split.{split_once}
use packet_browser.Text.Utf8.{from_utf8}
use packet_browser.Text.Words.{be_at}

abbrev pub max_line_length : ℕ
max_line_length = 1024

abbrev pub max_body_size : ℕ
max_body_size = 1024 * 1024

-- What comes from the socket, in order: a byte; a wake-up of the poll without one; the moment at
-- which the deadline passes, which stands between two reads; another I/O error. The end of the
-- list is the end of the stream.
pub data Item : Type 0 where
  byte : ℕ → Item
  wake_up expiry : Item
  broken : Bytes → Item

-- The socket, and whether the deadline is past.
pub record Input : Type 0 where
  pub late : Bool
  pub items : List Item

pub data IoError : Type 0 where
  timed_out line_too_long eof_mid_line invalid_utf8 short_body : IoError
  empty_url invalid_request : IoError
  body_too_large : ℕ → IoError
  other : Bytes → IoError

-- The results of a read, with the socket behind it.
abbrev pub Reading : Type 0 → Type 0
Reading A = Result IoError A × Input

unfoldable pub utf8_line : Bytes → Result IoError (Option Bytes)
utf8_line buf = elim (from_utf8 buf) [ some s ↦ ok (some s) | none ↦ err invalid_utf8 ]

-- `read_until` gave no byte at the end of the stream.
unfoldable pub at_eof : Bytes → Result IoError (Option Bytes)
at_eof [] = ok none
at_eof (b ∷ buf) = err eof_mid_line

-- The loop inside one `read_until`; `fresh` says whether this call has read a byte.
unfoldable pub read_until : Bytes → Bool → Bool → List Item → Reading (Option Bytes)
unfolding utf8_line at_eof
read_until buf late fresh [] =
    let input : Input = record { late = late; items = [] } in
    if fresh
    then if late then (err timed_out, input) else (err eof_mid_line, input)
    else (at_eof buf, input)
read_until buf late fresh (byte c ∷ items) =
    let more = read_until (buf ++ c ∷ []) late true items in
    let input : Input = record { late = late; items = items } in
    if c == newline
    then (utf8_line (buf ++ c ∷ []), input)
    else if leb (max_line_length + 1) (suc (length buf))
    then (err line_too_long, input)
    else more
read_until buf late fresh (wake_up ∷ items) =
    let more = read_until buf false false items in
    if late then (err timed_out, record { late = late; items = items }) else more
read_until buf late fresh (expiry ∷ items) = read_until buf true fresh items
read_until buf late fresh (broken e ∷ items) =
    (err (other e), record { late = late; items = items })

unfoldable pub read_bounded_line_until : Input → Reading (Option Bytes)
read_bounded_line_until input =
    if input.late then (err timed_out, input) else read_until [] false false input.items

-- `n` more bytes. A wake-up and the moment of the deadline end a read, and the deadline is looked
-- at before the next one.
unfoldable pub read_exact_from : Bytes → ℕ → Bool → List Item → Reading Bytes
read_exact_from buf zero late items = (ok buf, record { late = late; items = items })
read_exact_from buf (suc n) true items = (err timed_out, record { late = true; items = items })
read_exact_from buf (suc n) false [] = (err short_body, record { late = false; items = [] })
read_exact_from buf (suc n) false (byte c ∷ items) = read_exact_from (buf ++ c ∷ []) n false items
read_exact_from buf (suc n) false (wake_up ∷ items) = read_exact_from buf (suc n) false items
read_exact_from buf (suc n) false (expiry ∷ items) = read_exact_from buf (suc n) true items
read_exact_from buf (suc n) false (broken e ∷ items) =
    (err (other e), record { late = false; items = items })

unfoldable pub read_exact_until : ℕ → Input → Reading Bytes
read_exact_until n input = read_exact_from [] n input.late input.items

-- What follows a read that went well.
unfoldable pub then_with : {A B : Type 0} → Reading A → (A → Input → Reading B) → Reading B
then_with (ok a, input) f = f a input
then_with (err e, input) f = (err e, input)

-- The body of a POST, whose length was read.
unfoldable pub read_body : Bytes → Bytes → Input → Reading (Option Request)
unfolding then_with
read_body url len_buf input =
    let body_len = be_at len_buf 0 in
    if ltb max_body_size body_len
    then (err (body_too_large body_len), input)
    else then_with (read_exact_until body_len input)
        (λ body input'. (ok (some (post url body)), input'))

unfoldable pub parse_line : Bytes → Input → Reading (Option Request)
unfolding read_body then_with
parse_line trimmed input =
    if starts_with trimmed (codes "GET ")
    then elim (drop 4 trimmed) [
      | [] ↦ (err empty_url, input)
      | c ∷ s ↦ (ok (some (split_get (c ∷ s) (split_once (c ∷ s) marker))), input)
    ]
    else if starts_with trimmed (codes "POST ")
    then elim (drop 5 trimmed) [
      | [] ↦ (err empty_url, input)
      | c ∷ s ↦ then_with (read_exact_until 4 input) (read_body (c ∷ s))
    ]
    else (err invalid_request, input)

unfoldable pub read_line_then : Option Bytes → Input → Reading (Option Request)
unfolding parse_line
read_line_then none input = (ok none, input)
read_line_then (some header_line) input = parse_line (trim header_line) input

unfoldable pub read_request : Input → Reading (Option Request)
unfolding read_line_then
read_request input = then_with (read_bounded_line_until input) read_line_then
