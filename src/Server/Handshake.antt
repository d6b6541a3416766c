-- ===== src/Server/Handshake.antt =====
-- server/src/session.rs, and the part of `handle_connection` of server/src/main.rs before the
-- framed protocol: the callsign and the consent.
pub mod Deadline
pub mod Ending
pub mod Consent
use packet_browser.Prelude.{
  ℕ, zero, suc, ◌+◌, Bytes, Bool, true, false, ◌&&◌, ◌||◌, List, [], ◌∷◌, ◌++◌, Option, none, some,
  Result, ok, err, leb, if◌then◌else◌, any, not, length, get_or, codes, drop,
}
use packet_browser.Server.Reader.{Item, Input, IoError, Reading, read_bounded_line_until}
use packet_browser.Text.Ascii.{
  is_alphanumeric, is_digit, is_upper, is_lower, eq_ignore_ascii_case, trim,
}
use packet_browser.Text.Search.{equal, starts_with}
use packet_browser.Text.Split.{split}

-- A match of the pattern with so many characters in front of its digit.
unfoldable pub matches_after : ℕ → Bytes → Bool
matches_after i s = is_digit (get_or s i 0) && leb (i + 2) (length s) && leb (length s) (i + 5)

abbrev pub last_or_zero : Bytes → ℕ
last_or_zero [] = 0
last_or_zero (c ∷ []) = c
last_or_zero (c ∷ d ∷ s) = last_or_zero (d ∷ s)

-- `^[a-zA-Z0-9]{1,3}[0-9][a-zA-Z0-9]{0,3}[a-zA-Z]$`
unfoldable pub is_callsign : Bytes → Bool
unfolding matches_after
is_callsign s =
    not (any (λ c. not (is_alphanumeric c)) s)
    && (is_upper (last_or_zero s) || is_lower (last_or_zero s))
    && (matches_after 1 s || matches_after 2 s || matches_after 3 s)

-- `split('-').next()`
abbrev pub first_part : List Bytes → Bytes → Bytes
first_part [] s = s
first_part (p ∷ ps) s = p

abbrev pub base_of : Bytes → Bytes
base_of callsign = first_part (split b'-' callsign) callsign

-- What the handshake runs with: the Unicode upper-casing of the standard library, and the
-- configured exceptions to the pattern.
pub record Terms : Type 0 where
  pub to_uppercase : Bytes → Bytes
  pub allowed_callsigns : List Bytes

pub data PreAuthLine : Type 0 where
  duplicate_callsign linbpq_status candidate : PreAuthLine

-- The results of the handshake: the callsign and the socket behind the consent; an orderly end,
-- with the last text sent; an I/O error.
pub data Outcome : Type 0 where
  agreed : Bytes → Input → Outcome
  ended : Option Bytes → Outcome
  broken : IoError → Outcome

pub data Awaited : Type 0 where
  answer_line : Bytes → Input → Awaited
  closed : Awaited
  failed : IoError → Awaited

module _ (terms : Terms) where
  -- `none` is `InvalidCallsign`.
  unfoldable pub validate_callsign_with_allowlist : Bytes → Option Bytes
  validate_callsign_with_allowlist callsign =
      let call = base_of callsign in
      let upper = terms.to_uppercase call in
      if is_callsign call
      then some upper
      else if any (λ entry. eq_ignore_ascii_case entry call) terms.allowed_callsigns
      then some upper
      else none

  unfoldable pub classify_preauth_line : Bytes → Bytes → PreAuthLine
  classify_preauth_line line callsign =
      let trimmed = terms.to_uppercase (trim line) in
      if equal trimmed callsign
      then duplicate_callsign
      else if starts_with trimmed (codes "***")
      then linbpq_status
      else candidate

  abbrev pub is_noise : PreAuthLine → Bool
  is_noise duplicate_callsign = true
  is_noise linbpq_status = true
  is_noise candidate = false

  -- What one round of the loop makes of its read: `none` to go on.
  unfoldable pub sort_line : Bytes → Reading (Option Bytes) → Option Awaited
  sort_line callsign (err e, input) = some (failed e)
  sort_line callsign (ok none, input) = some closed
  sort_line callsign (ok (some s), input) =
      if is_noise (classify_preauth_line s callsign) then none else some (answer_line s input)

  -- The loop, on fuel; each round reads at least one item.
  unfoldable pub await_line : ℕ → Bytes → Input → Option Awaited
  await_line zero callsign input = none
  await_line (suc fuel) callsign input =
      let reading = read_bounded_line_until input in
      let later = await_line fuel callsign reading.1 in
      elim (sort_line callsign reading) [ some a ↦ some a | none ↦ later ]

  -- The comparison with the word of consent.
  unfoldable pub consent : Bytes → Option Awaited → Option Outcome
  consent callsign none = none
  consent callsign (some (failed e)) = some (broken e)
  consent callsign (some closed) = some (ended none)
  consent callsign (some (answer_line s input)) =
      if equal (terms.to_uppercase (trim s)) (codes "AGREE")
      then some (agreed callsign input)
      else some (ended (some (codes "Acknowledgment required. Goodbye.")))

  unfoldable pub with_callsign : Option Bytes → Input → Option Outcome
  unfolding consent await_line
  with_callsign none input = some (ended (some (codes "Invalid callsign format. Disconnecting.")))
  with_callsign (some callsign) input =
      consent callsign (await_line (suc (length input.items)) callsign input)

  unfoldable pub with_first_line : Reading (Option Bytes) → Option Outcome
  unfolding with_callsign validate_callsign_with_allowlist
  with_first_line (err e, input) = some (broken e)
  with_first_line (ok none, input) = some (ended none)
  with_first_line (ok (some s), input) =
      with_callsign (validate_callsign_with_allowlist (trim s)) input

  -- From the first prompt to the consent.
  unfoldable pub handshake : Input → Option Outcome
  unfolding with_first_line
  handshake input = with_first_line (read_bounded_line_until input)
