-- ===== src/Server/OriginCc/Bounds.antt =====
-- The range of `parse_cache_control`, and what it does not look at.
use packet_browser.Prelude.Int.{ℤ, pos, negsuc, ◌≤ℤ◌}
use packet_browser.Prelude.{
  ℕ, ◌-◌, ◌%◌, ◌^◌, ◌<◌, ◌≡◌, refl, sym, ap, ◌∙◌, Bytes, true, ◌||◌, List, Option, none, some, ltb,
  leb, any, codes, map, min, ◌⊎◌, inl, inr, Bool-cases, Option-cases, arith,
}
use packet_browser.Server.OriginCc.{
  CcDefaults, ParseHttpDate, tokens_of, seconds, or_else, clamp_0, to_u64, to_i32, of_tokens,
  of_dates, and_then, parse_cache_control,
}
use packet_browser.Text.Ascii.{to_ascii_lowercase, trim}
use packet_browser.Text.Search.{equal}
use packet_browser.Text.Split.{split}
use mathlib.Core.Path.{subst}

-- A usable result: the configured default, or a value from -1 to the configured maximum.
abbrev pub IsUsable : CcDefaults → ℤ → Type 0
IsUsable defaults n =
    (n ≡ defaults.default_max_age) ⊎ ((negsuc 0 ≤ℤ n) × (n ≤ℤ defaults.max_max_age))

abbrev Gives : CcDefaults → Option ℤ → Type 0
Gives defaults o = (n : ℤ) × (o ≡ some n) × IsUsable defaults n

-- A value from -1 to the maximum.
in_range :
    (defaults : CcDefaults) (n : ℤ) (m : ℕ)
    → defaults.max_max_age ≡ pos m
    → negsuc 0 ≤ℤ n
    → n ≤ℤ pos m
    → Gives defaults (some n)
in_range defaults n m e lo hi = (n, refl, inr (lo, subst (λ z. n ≤ℤ z) (sym e) hi))

clamp_0_lem :
    (defaults : CcDefaults) (secs : ℤ) (m : ℕ)
    → defaults.max_max_age ≡ pos m
    → Gives defaults (clamp_0 secs (pos m))
unfolding clamp_0
clamp_0_lem defaults (negsuc n) m e = in_range defaults (pos 0) m e (omega arith) (omega arith)
clamp_0_lem defaults (pos n) m e = elim (Bool-cases (ltb m n)) [
  | inl above ↦ rw above (in_range defaults (pos m) m e (omega arith) (omega arith))
  | inr fits ↦ rw fits (in_range defaults (pos n) m e (omega arith) (ground (arith, fits)))
]

of_tokens_lem :
    (defaults : CcDefaults) (tokens : List Bytes) (m : ℕ)
    → defaults.max_max_age ≡ pos m
    → Gives defaults (of_tokens defaults tokens)
unfolding of_tokens
of_tokens_lem defaults tokens m e =
    let forbids = any (λ t. equal t (codes "no-store") || equal t (codes "private")) tokens in
    let picked = or_else (seconds (codes "s-maxage=") tokens) (seconds (codes "max-age=") tokens) in
    elim (Bool-cases forbids) [
      | inl stop ↦ rw stop (in_range defaults (negsuc 0) m e (omega arith) (omega arith))
      | inr pass ↦ elim (Bool-cases (any (equal (codes "no-cache")) tokens)) [
        | inl stop ↦ rw pass (rw stop (in_range defaults (pos 0) m e (omega arith) (omega arith)))
        | inr pass' ↦ elim (Option-cases picked) [
          | inl bare ↦ rw pass (rw pass' (rw bare (defaults.default_max_age, refl, inl refl)))
          | inr (secs, found) ↦ rw pass (
              rw pass' (
                rw found (
                  subst (λ z. Gives defaults (clamp_0 secs z)) (sym e)
                    (clamp_0_lem defaults secs m e))))
        ]
      ]
    ]

to_i32_small : (n : ℕ) → n < 2 ^ 31 → to_i32 n ≡ pos n
unfolding to_i32
to_i32_small n h =
    let small : n % 2 ^ 32 ≡ n = omega arith in
    rw small (rw (let t : ltb n (2 ^ 31) ≡ true = ground arith in t) refl)

of_dates_lem :
    (defaults : CcDefaults) (exp_ts dt_ts : Option ℕ) (m : ℕ) {n : ℤ}
    → defaults.max_max_age ≡ pos m
    → m < 2 ^ 31
    → of_dates defaults exp_ts dt_ts ≡ some n
    → IsUsable defaults n
unfolding of_dates to_u64
of_dates_lem defaults none dt_ts m e k h = absurd (cc h)
of_dates_lem defaults (some a) none m e k h = absurd (cc h)
of_dates_lem defaults (some a) (some b) m {n} e k h = elim (Bool-cases (leb b a)) [
  | inr past ↦ absurd (cc (rw past at h))
  | inl ahead ↦
      let v = min (a - b) m in
      let small : v < 2 ^ 31 = omega arith in
      let found : to_i32 v ≡ n = cc (rw e at (rw ahead at h)) in
      subst (IsUsable defaults) (sym (to_i32_small v small) ∙ found)
        (inr (omega arith, subst (λ z. pos v ≤ℤ z) (sym e) (omega arith)))
]

-- With a maximum that is not negative and fits in an `i32`, `parse_cache_control` gives a value
-- without a panic for all headers: the default, or a value from -1 to the maximum.
pub parse_cache_control-IsUsable :
    (date_of : ParseHttpDate) (cc_header expires date : Option Bytes) (defaults : CcDefaults)
    (m : ℕ)
    → defaults.max_max_age ≡ pos m
    → m < 2 ^ 31
    → (n : ℤ) × (parse_cache_control date_of cc_header expires date defaults ≡ some n)
      × IsUsable defaults n
unfolding parse_cache_control
parse_cache_control-IsUsable date_of (some cc_header) expires date defaults m e k =
    of_tokens_lem defaults (tokens_of cc_header) m e
parse_cache_control-IsUsable date_of none expires date defaults m e k =
    elim (Option-cases (of_dates defaults (and_then date_of expires) (and_then date_of date))) [
      | inl nothing ↦ rw (nothing, parse_cache_control) (defaults.default_max_age, refl, inl refl)
      | inr (n, h) ↦ rw (h, parse_cache_control) (n, refl, of_dates_lem defaults _ _ m e k h)
    ]

-- The case of the letters in `Cache-Control` does not matter, nor do `Expires` and `Date` beside
-- it.
pub parse_cache_control_caseless :
    (date_of : ParseHttpDate) (cc_header other : Bytes) (expires date expires' date' : Option Bytes)
    (defaults : CcDefaults)
    → to_ascii_lowercase cc_header ≡ to_ascii_lowercase other
    → parse_cache_control date_of (some cc_header) expires date defaults
      ≡ parse_cache_control date_of (some other) expires' date' defaults
unfolding parse_cache_control tokens_of
parse_cache_control_caseless date_of cc_header other expires date expires' date' defaults e =
    ap (λ s. of_tokens defaults (map trim (split b',' s))) e
