-- ===== src/Protocol/Response/Tokens.antt =====
-- The fields of a header are tokens: printable, with no space inside.
use packet_browser.Prelude.Int.{ℤ, pos, negsuc}
use packet_browser.Prelude.{
  ℕ, suc, ◌≤◌, Bytes, true, false, [], ◌∷◌, ◌≡◌, inl, inr, arith, All, All-imp, All-append, Lacks,
  Bool-cases, codes, length, ◌==◌, &&_split,
}
use packet_browser.Protocol.Response.{valid_etag, all_etag, is_line_end, space, header_line}
use packet_browser.Text.Decimal.{to_string, to_string_ℤ, to_string-IsNumeral}
use packet_browser.Text.Search.{equal, equal_sound}
use packet_browser.Text.Utf8.{is_utf8, is_utf8_ascii}

abbrev pub IsToken : Bytes → Type 0
IsToken = All (λ c. (33 ≤ c) × (c ≤ 126))

abbrev pub IsPrintable : Bytes → Type 0
IsPrintable = All (λ c. (32 ≤ c) × (c ≤ 126))

pub IsToken-Lacks-space : (s : Bytes) → IsToken s → Lacks space s
IsToken-Lacks-space s = All-imp s (λ c h. omega arith)

pub IsToken-IsPrintable : (s : Bytes) → IsToken s → IsPrintable s
IsToken-IsPrintable s = All-imp s (λ c h. omega arith)

pub IsPrintable-is_utf8 : (s : Bytes) → IsPrintable s → is_utf8 s ≡ true
IsPrintable-is_utf8 s h = is_utf8_ascii s (All-imp s (λ c k. omega arith) h)

pub IsPrintable-no_line_end : (s : Bytes) → IsPrintable s → All (λ c. is_line_end c ≡ false) s
IsPrintable-no_line_end s = All-imp s (λ c h. ground arith)

pub to_string-IsToken : (n : ℕ) → IsToken (to_string n)
to_string-IsToken n = All-imp (to_string n) (λ c h. omega arith) (to_string-IsNumeral n).digits

pub to_string_ℤ-IsToken : (z : ℤ) → IsToken (to_string_ℤ z)
unfolding to_string_ℤ
to_string_ℤ-IsToken (pos n) = to_string-IsToken n
to_string_ℤ-IsToken (negsuc n) = (omega arith, to_string-IsToken (suc n))

all_etag-IsToken : (s : Bytes) → all_etag s ≡ true → IsToken s
all_etag-IsToken [] h = tt
all_etag-IsToken (c ∷ s) h = ground (arith, all_etag-IsToken s)

pub valid_etag-IsToken : (s : Bytes) → valid_etag s ≡ true → IsToken s
unfolding valid_etag
valid_etag-IsToken s h = elim (Bool-cases (equal s (codes "-"))) [
  | inl dash ↦ rw (equal_sound s (codes "-") dash) (omega arith)
  | inr other ↦ all_etag-IsToken s (&&_split (length s == 16) (all_etag s) (rw other at h)).1
]

pub header_line-IsPrintable :
    (len : ℕ) (etag : Bytes) (max_age : ℤ)
    → IsToken etag
    → IsPrintable (header_line len etag max_age)
header_line-IsPrintable len etag max_age h =
    All-append _ (to_string len) _ (IsToken-IsPrintable _ (to_string-IsToken len)) (
      omega arith,
      All-append _ etag _ (IsToken-IsPrintable etag h)
          (omega arith, IsToken-IsPrintable _ (to_string_ℤ-IsToken max_age)),
    )
