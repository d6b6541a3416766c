-- ===== src/Text/Ascii.antt =====
-- ASCII classes, case mapping, and `trim` over UTF-8 bytes.
use packet_browser.Prelude.{
  ℕ, zero, suc, ◌+◌, ◌-◌, ◌≡◌, refl, Bytes, Bool, ◌&&◌, ◌||◌, List, [], ◌∷◌, arith, leb, ◌==◌,
  if◌then◌else◌, map, length, drop,
}
use packet_browser.Text.Search.{equal, starts_with}
use mathlib.Core.List.{reverse}

abbrev pub within : ℕ → ℕ → ℕ → Bool
within lo hi c = leb lo c && leb c hi

abbrev pub is_digit : ℕ → Bool
is_digit c = within b'0' b'9' c

abbrev pub is_upper : ℕ → Bool
is_upper c = within b'A' b'Z' c

abbrev pub is_lower : ℕ → Bool
is_lower c = within b'a' b'z' c

-- `u8::is_ascii_alphanumeric`
abbrev pub is_alphanumeric : ℕ → Bool
is_alphanumeric c = is_digit c || is_upper c || is_lower c

unfoldable pub lower : ℕ → ℕ
lower c = if is_upper c then c + 32 else c

unfoldable pub upper : ℕ → ℕ
upper c = if is_lower c then c - 32 else c

-- `to_ascii_lowercase`
abbrev pub to_ascii_lowercase : Bytes → Bytes
to_ascii_lowercase = map lower

-- `eq_ignore_ascii_case`
unfoldable pub eq_ignore_ascii_case : Bytes → Bytes → Bool
eq_ignore_ascii_case a b = equal (to_ascii_lowercase a) (to_ascii_lowercase b)

pub lower_idem : (c : ℕ) → lower (lower c) ≡ lower c
unfolding lower
lower_idem c = ground arith

-- Lower-casing twice is lower-casing once.
pub to_ascii_lowercase_idem :
    (s : Bytes) → to_ascii_lowercase (to_ascii_lowercase s) ≡ to_ascii_lowercase s
to_ascii_lowercase_idem [] = refl
to_ascii_lowercase_idem (c ∷ s) = cc (lower_idem c, to_ascii_lowercase_idem s)

-- The encodings of the characters with the Unicode property White_Space.
unfoldable pub white_spaces : List Bytes
white_spaces =
    (0x09 ∷ [])
    ∷ (0x0a ∷ [])
    ∷ (0x0b ∷ [])
    ∷ (0x0c ∷ [])
    ∷ (0x0d ∷ [])
    ∷ (0x20 ∷ [])
    ∷ (0xc2 ∷ 0x85 ∷ [])
    ∷ (0xc2 ∷ 0xa0 ∷ [])
    ∷ (0xe1 ∷ 0x9a ∷ 0x80 ∷ [])
    ∷ (0xe2 ∷ 0x80 ∷ 0x80 ∷ [])
    ∷ (0xe2 ∷ 0x80 ∷ 0x81 ∷ [])
    ∷ (0xe2 ∷ 0x80 ∷ 0x82 ∷ [])
    ∷ (0xe2 ∷ 0x80 ∷ 0x83 ∷ [])
    ∷ (0xe2 ∷ 0x80 ∷ 0x84 ∷ [])
    ∷ (0xe2 ∷ 0x80 ∷ 0x85 ∷ [])
    ∷ (0xe2 ∷ 0x80 ∷ 0x86 ∷ [])
    ∷ (0xe2 ∷ 0x80 ∷ 0x87 ∷ [])
    ∷ (0xe2 ∷ 0x80 ∷ 0x88 ∷ [])
    ∷ (0xe2 ∷ 0x80 ∷ 0x89 ∷ [])
    ∷ (0xe2 ∷ 0x80 ∷ 0x8a ∷ [])
    ∷ (0xe2 ∷ 0x80 ∷ 0xa8 ∷ [])
    ∷ (0xe2 ∷ 0x80 ∷ 0xa9 ∷ [])
    ∷ (0xe2 ∷ 0x80 ∷ 0xaf ∷ [])
    ∷ (0xe2 ∷ 0x81 ∷ 0x9f ∷ [])
    ∷ (0xe3 ∷ 0x80 ∷ 0x80 ∷ [])
    ∷ []

-- The length of the first of the texts that `s` starts with; 0 if there is none.
unfoldable pub match_length : List Bytes → Bytes → ℕ
match_length [] s = 0
match_length (p ∷ ps) s = if starts_with s p then length p else match_length ps s

-- Cuts matching texts off the front; the fuel counts bytes.
strip_all : List Bytes → ℕ → Bytes → Bytes
strip_all ps zero s = s
strip_all ps (suc fuel) s =
    let n = match_length ps s in
    let rest = strip_all ps fuel (drop n s) in if n == 0 then s else rest

-- `trim_start` and `trim`: the second also strips the mirrored encodings off the reversed text.
unfoldable pub trim_start : Bytes → Bytes
unfolding strip_all match_length white_spaces
trim_start s = strip_all white_spaces (length s) s

unfoldable pub trim_end : Bytes → Bytes
unfolding strip_all match_length white_spaces
trim_end s = reverse (strip_all (map reverse white_spaces) (length s) (reverse s))

unfoldable pub trim : Bytes → Bytes
unfolding trim_start trim_end
trim s = trim_end (trim_start s)

trim_runs :
    trim (0x20 ∷ 0xc2 ∷ 0xa0 ∷ b'a' ∷ 0x20 ∷ b'b' ∷ 0xe3 ∷ 0x80 ∷ 0x80 ∷ 0x0d ∷ 0x0a ∷ [])
    ≡ b'a' ∷ 0x20 ∷ b'b' ∷ []
unfolding trim starts_with
trim_runs = refl
