-- ===== src/Server/OriginCc.antt =====
-- server/src/origin_cc.rs: the caching headers of an origin become one `max_age`.
pub mod Bounds
use packet_browser.Prelude.Int.{ℤ, pos, negsuc, neg, ltb_ℤ}
use packet_browser.Prelude.{
  ℕ, zero, suc, ◌+◌, ◌-◌, ◌%◌, ◌^◌, Bytes, Bool, true, false, ◌||◌, List, [], ◌∷◌, Option, none,
  some, ltb, leb, if◌then◌else◌, any, codes, map, min,
}
use packet_browser.Text.Ascii.{to_ascii_lowercase, trim}
use packet_browser.Text.Decimal.{parse_signed}
use packet_browser.Text.Search.{equal, strip_prefix}
use packet_browser.Text.Split.{split}

-- Both are `i32`.
pub record CcDefaults : Type 0 where
  pub default_max_age : ℤ
  pub max_max_age : ℤ

-- `httpdate::parse_http_date`, in seconds since the epoch
abbrev pub ParseHttpDate : Type 0
ParseHttpDate = Bytes → Option ℕ

unfoldable pub tokens_of : Bytes → List Bytes
tokens_of cc = map trim (split b',' (to_ascii_lowercase cc))

-- `find_map(|t| t.strip_prefix(p))`
unfoldable pub find_value : Bytes → List Bytes → Option Bytes
find_value p [] = none
find_value p (t ∷ ts) = elim (strip_prefix t p) [ some v ↦ some v | none ↦ find_value p ts ]

-- `parse::<i64>().ok()` of the value of the first token with this prefix
unfoldable pub seconds : Bytes → List Bytes → Option ℤ
seconds p tokens = elim (find_value p tokens) [ some v ↦ parse_signed (2 ^ 63 - 1) v | none ↦ none ]

-- `s_maxage.or(max_age)`
unfoldable pub or_else : Option ℤ → Option ℤ → Option ℤ
or_else (some a) b = some a
or_else none b = b

-- `secs.clamp(0, max)`: `none` is the panic on a negative upper bound.
unfoldable pub clamp_0 : ℤ → ℤ → Option ℤ
clamp_0 secs (negsuc m) = none
clamp_0 (negsuc n) (pos m) = some (pos 0)
clamp_0 (pos n) (pos m) = if ltb m n then some (pos m) else some (pos n)

-- `i32 as u64` and `u64 as i32`
unfoldable pub to_u64 : ℤ → ℕ
to_u64 (pos n) = n
to_u64 (negsuc n) = 2 ^ 64 - suc n

unfoldable pub to_i32 : ℕ → ℤ
to_i32 n = if ltb (n % 2 ^ 32) (2 ^ 31) then pos (n % 2 ^ 32) else neg (2 ^ 32 - n % 2 ^ 32)

-- The value when there is a `Cache-Control` header.
unfoldable pub of_tokens : CcDefaults → List Bytes → Option ℤ
of_tokens defaults tokens =
    if any (λ t. equal t (codes "no-store") || equal t (codes "private")) tokens
    then some (negsuc 0)
    else if any (equal (codes "no-cache")) tokens
    then some (pos 0)
    else elim (or_else (seconds (codes "s-maxage=") tokens) (seconds (codes "max-age=") tokens)) [
      | some secs ↦ clamp_0 secs defaults.max_max_age
      | none ↦ some defaults.default_max_age
    ]

-- The value by `Expires` and `Date`, both parsed; `none` where the default is taken.
unfoldable pub of_dates : CcDefaults → Option ℕ → Option ℕ → Option ℤ
of_dates defaults (some exp_ts) (some dt_ts) =
    if leb dt_ts exp_ts
    then some (to_i32 (min (exp_ts - dt_ts) (to_u64 defaults.max_max_age)))
    else none
of_dates defaults _ _ = none

unfoldable pub and_then : ParseHttpDate → Option Bytes → Option ℕ
and_then parse none = none
and_then parse (some s) = parse s

-- `parse_cache_control`; `none` is a panic.
unfoldable pub parse_cache_control :
    ParseHttpDate → Option Bytes → Option Bytes → Option Bytes → CcDefaults → Option ℤ
unfolding tokens_of
parse_cache_control date_of (some cc) expires date defaults = of_tokens defaults (tokens_of cc)
parse_cache_control date_of none expires date defaults =
    elim (of_dates defaults (and_then date_of expires) (and_then date_of date)) [
      | some secs ↦ some secs
      | none ↦ some defaults.default_max_age
    ]
