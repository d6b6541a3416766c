-- ===== src/Text/Utf8.antt =====
-- `std::str::from_utf8`: the well-formed byte sequences of the Unicode standard, table 3-7.
use packet_browser.Prelude.{
  ℕ, zero, suc, ◌≡◌, refl, Bytes, Bool, true, false, ◌&&◌, ◌||◌, [], ◌∷◌, ◌++◌, Option, none, some,
  arith, leb, ltb, ◌==◌, if◌then◌else◌, ◌<◌, All, &&_split,
}

-- how many continuation bytes a lead byte wants
follow : ℕ → ℕ
follow b = if ltb b 0x80 then 0 else if ltb b 0xe0 then 1 else if ltb b 0xf0 then 2 else 3

is_lead : ℕ → Bool
is_lead b = ltb b 0x80 || (leb 0xc2 b && leb b 0xf4)

-- the range of the first continuation byte
low : ℕ → ℕ
low b = if b == 0xe0 then 0xa0 else if b == 0xf0 then 0x90 else 0x80

high : ℕ → ℕ
high b = if b == 0xed then 0x9f else if b == 0xf4 then 0x8f else 0xbf

-- `more` continuation bytes are due, the next of them within `lo` to `hi`
scan : ℕ → ℕ → ℕ → Bytes → Bool
scan zero lo hi [] = true
scan (suc more) lo hi [] = false
scan zero lo hi (b ∷ s) = is_lead b && scan (follow b) (low b) (high b) s
scan (suc more) lo hi (b ∷ s) = (leb lo b && leb b hi) && scan more 0x80 0xbf s

unfoldable pub is_utf8 : Bytes → Bool
unfolding scan follow is_lead low high
is_utf8 s = scan 0 0 0 s

-- `from_utf8(s).ok()`
unfoldable pub from_utf8 : Bytes → Option Bytes
from_utf8 s = if is_utf8 s then some s else none

scan-append :
    (s t : Bytes) (more lo hi : ℕ)
    → scan more lo hi s ≡ true
    → scan 0 0 0 t ≡ true
    → scan more lo hi (s ++ t) ≡ true
unfolding scan
scan-append [] [] zero lo hi h k = refl
scan-append [] (b ∷ t) zero lo hi h k = k
scan-append [] t (suc more) lo hi h k = cc
scan-append (b ∷ s) t zero lo hi h k =
    let (lead, rest) = &&_split (is_lead b) (scan (follow b) (low b) (high b) s) h in
    rw (lead, scan-append s t (follow b) (low b) (high b) rest k)
scan-append (b ∷ s) t (suc more) lo hi h k =
    let (inside, rest) = &&_split (leb lo b && leb b hi) (scan more 0x80 0xbf s) h in
    rw (inside, scan-append s t more 0x80 0xbf rest k)

-- Two well-formed texts joined are well formed.
pub is_utf8-append : (s t : Bytes) → is_utf8 s ≡ true → is_utf8 t ≡ true → is_utf8 (s ++ t) ≡ true
unfolding is_utf8
is_utf8-append s t = scan-append s t 0 0 0

scan_ascii : (s : Bytes) (lo hi : ℕ) → All (λ c. c < 0x80) s → scan 0 lo hi s ≡ true
unfolding scan is_lead follow
scan_ascii [] lo hi h = refl
scan_ascii (b ∷ s) lo hi h = ground (arith, scan_ascii s (low b) (high b) h.1)

pub is_utf8_ascii : (s : Bytes) → All (λ c. c < 0x80) s → is_utf8 s ≡ true
unfolding is_utf8
is_utf8_ascii s = scan_ascii s 0 0

pub from_utf8-some : (s : Bytes) → is_utf8 s ≡ true → from_utf8 s ≡ some s
unfolding from_utf8
from_utf8-some s h = rw h

pub from_utf8_sound : (s : Bytes) {t : Bytes} → from_utf8 s ≡ some t → (t ≡ s) × (is_utf8 s ≡ true)
unfolding from_utf8
from_utf8_sound s h = ground arith

-- 2, 3 and 4 byte characters; an overlong form, a surrogate, a cut-off character
utf8_cases :
    (is_utf8 (0xc3 ∷ 0xa9 ∷ 0xe2 ∷ 0x82 ∷ 0xac ∷ 0xf0 ∷ 0x9f ∷ 0x93 ∷ 0xa1 ∷ []) ≡ true)
    × (is_utf8 (0xc0 ∷ 0x80 ∷ []) ≡ false)
    × (is_utf8 (0xed ∷ 0xa0 ∷ 0x80 ∷ []) ≡ false)
    × (is_utf8 (0xe2 ∷ 0x82 ∷ []) ≡ false)
unfolding is_utf8
utf8_cases = (refl, refl, refl, refl)
