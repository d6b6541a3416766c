-- ===== src/Text/Decimal.antt =====
-- `to_string` of integers in decimal, and `str::parse` into `u32`, `i32` and other widths.
use packet_browser.Prelude.Int.{ℤ, pos, negsuc, neg, ◌≤ℤ◌}
use packet_browser.Prelude.{
  ℕ, zero, suc, ◌+◌, ◌-◌, ◌*◌, ◌/◌, ◌%◌, ◌^◌, ◌≤◌, ◌≡◌, refl, sym, ap, ◌∙◌, Bytes, ◌&&◌, [], ◌∷◌,
  Option, none, some, arith, ltb, leb, ◌==◌, if◌then◌else◌, All, Bool-cases, inl, inr,
}
use packet_browser.Text.Ascii.{is_digit}
use mathlib.Core.Option

-- The digits of `n` in front of `out`. The fuel is `n` itself, which every division by ten lowers.
print : ℕ → ℕ → Bytes → Bytes
print zero n out = (b'0' + n % 10) ∷ out
print (suc fuel) n out =
    let more = print fuel (n / 10) ((b'0' + n % 10) ∷ out) in
    if ltb n 10 then (b'0' + n % 10) ∷ out else more

unfoldable pub to_string : ℕ → Bytes
unfolding print
to_string n = print n n []

unfoldable pub to_string_ℤ : ℤ → Bytes
unfolding to_string
to_string_ℤ (pos n) = to_string n
to_string_ℤ (negsuc n) = b'-' ∷ to_string (suc n)

-- The digit loop of `parse`, by checked arithmetic: a value above the limit is an error.
scan : ℕ → Bytes → ℕ → Option ℕ
scan limit [] n = some n
scan limit (c ∷ s) n =
    let m = n * 10 + (c - b'0') in
    let rest = scan limit s m in if is_digit c && leb m limit then rest else none

parse_digits : ℕ → Bytes → Option ℕ
unfolding scan
parse_digits limit [] = none
parse_digits limit (c ∷ s) = scan limit (c ∷ s) 0

-- `parse` into an unsigned type with this greatest value: one `+` may stand in front.
unfoldable pub parse_unsigned : ℕ → Bytes → Option ℕ
unfolding parse_digits
parse_unsigned limit [] = none
parse_unsigned limit (c ∷ s) =
    if c == b'+' then parse_digits limit s else parse_digits limit (c ∷ s)

-- `parse` into a signed type with this greatest value; the least is one further from 0.
unfoldable pub parse_signed : ℕ → Bytes → Option ℤ
unfolding parse_digits
parse_signed limit [] = none
parse_signed limit (c ∷ s) =
    if c == b'-'
    then Option.map neg (parse_digits (suc limit) s)
    else if c == b'+'
    then Option.map pos (parse_digits limit s)
    else Option.map pos (parse_digits limit (c ∷ s))

abbrev pub max_u32 : ℕ
max_u32 = 2 ^ 32 - 1

abbrev pub max_i32 : ℕ
max_i32 = 2 ^ 31 - 1

abbrev pub IsDigit : ℕ → Type 0
IsDigit c = (b'0' ≤ c) × (c ≤ b'9')

-- At least one digit, and nothing else.
pub record IsNumeral (s : Bytes) : Type 0 where
  pub head : ℕ
  pub tail : Bytes
  pub shape : s ≡ head ∷ tail
  pub digits : All IsDigit s

print-IsNumeral : (f n : ℕ) (out : Bytes) → All IsDigit out → IsNumeral (print f n out)
unfolding print
print-IsNumeral zero n out h = record {
  head = b'0' + n % 10;
  tail = out;
  shape = refl;
  digits = (omega arith, h);
}
print-IsNumeral (suc f) n out h = elim (Bool-cases (ltb n 10)) [
  | inl last ↦
      rw last (record { head = b'0' + n % 10; tail = out; shape = refl; digits = (omega arith, h) })
  | inr more ↦ rw more (print-IsNumeral f (n / 10) _ (omega arith, h))
]

pub to_string-IsNumeral : (n : ℕ) → IsNumeral (to_string n)
unfolding to_string
to_string-IsNumeral n = print-IsNumeral n n [] tt

scan-print :
    (limit f n : ℕ) (out : Bytes)
    → n ≤ f
    → n ≤ limit
    → scan limit (print f n out) 0 ≡ scan limit out n
unfolding scan print
scan-print limit zero n out h k = ground arith
scan-print limit (suc f) n out h k =
    ground (arith, scan-print limit f (n / 10) ((b'0' + n % 10) ∷ out))

parse_digits-to_string : (limit n : ℕ) → n ≤ limit → parse_digits limit (to_string n) ≡ some n
unfolding parse_digits to_string
parse_digits-to_string limit n h =
    let num = to_string-IsNumeral n in
    ap (parse_digits limit) num.shape
    ∙ ap (λ s. scan limit s 0) (sym num.shape)
    ∙ scan-print limit n n [] (omega arith) h

-- A printed number is read back, in every width that holds it.
pub parse_unsigned-to_string :
    (limit n : ℕ) → n ≤ limit → parse_unsigned limit (to_string n) ≡ some n
unfolding parse_unsigned
parse_unsigned-to_string limit n h =
    let num = to_string-IsNumeral n in
    ap (parse_unsigned limit) num.shape
    ∙ ground (arith, rw num.shape at num.digits)
    ∙ ap (parse_digits limit) (sym num.shape)
    ∙ parse_digits-to_string limit n h

pub parse_signed-to_string_ℤ :
    (limit : ℕ) (z : ℤ)
    → neg (suc limit) ≤ℤ z
    → z ≤ℤ pos limit
    → parse_signed limit (to_string_ℤ z) ≡ some z
unfolding parse_signed to_string_ℤ
parse_signed-to_string_ℤ limit (pos n) h k =
    let num = to_string-IsNumeral n in
    ap (parse_signed limit) num.shape
    ∙ ground (arith, rw num.shape at num.digits)
    ∙ ap (λ s. Option.map pos (parse_digits limit s)) (sym num.shape)
    ∙ ap (Option.map pos) (parse_digits-to_string limit n (omega arith))
parse_signed-to_string_ℤ limit (negsuc n) h k =
    ap (Option.map neg) (parse_digits-to_string (suc limit) (suc n) (omega arith))
