-- ===== src/Text/Search.antt =====
-- Slice searches: `starts_with`, `strip_prefix`, `position`, `windows(n).position`, `contains`.
use mathlib.Core.Option
use mathlib.Core.Option.{some-injective}
use packet_browser.Prelude.{
  ℕ, zero, suc, ◌+◌, ◌≤◌, ◌<◌, Bytes, Bool, true, false, not, ◌&&◌, ◌||◌, List, [], ◌∷◌, ◌++◌,
  Option, none, some, ◌≡◌, refl, sym, ap, ◌∙◌, ◌⊎◌, inl, inr, arith, ◌==◌, if◌then◌else◌,
  Bool-cases, length, take, drop, All, Lacks, length-append, append_assoc, append-nil, ◌≢◌, ==_iff,
  &&_split,
}

-- `a == b` on slices
unfoldable pub equal : Bytes → Bytes → Bool
equal [] [] = true
equal (x ∷ xs) (y ∷ ys) = x == y && equal xs ys
equal _ _ = false

pub equal_sound : (a b : Bytes) → equal a b ≡ true → a ≡ b
unfolding equal
equal_sound [] [] h = refl
equal_sound [] (y ∷ b) h = cc
equal_sound (x ∷ a) [] h = cc
equal_sound (x ∷ a) (y ∷ b) h = ground (arith, equal_sound a b)

pub equal_refl : (a : Bytes) → equal a a ≡ true
unfolding equal
equal_refl [] = refl
equal_refl (x ∷ a) = ground (arith, equal_refl a)

-- `s.starts_with(p)`
unfoldable pub starts_with : Bytes → Bytes → Bool
starts_with s [] = true
starts_with [] (p ∷ ps) = false
starts_with (c ∷ s) (p ∷ ps) = c == p && starts_with s ps

pub starts_with-append : (p s : Bytes) → starts_with (p ++ s) p ≡ true
unfolding starts_with
starts_with-append [] s = refl
starts_with-append (c ∷ p) s = ground (arith, starts_with-append p s)

pub starts_with_sound : (s p : Bytes) → starts_with s p ≡ true → s ≡ p ++ drop (length p) s
unfolding starts_with
starts_with_sound s [] h = refl
starts_with_sound [] (p ∷ ps) h = cc
starts_with_sound (c ∷ s) (p ∷ ps) h = ground (arith, starts_with_sound s ps)

-- Only the first `length p` bytes matter.
pub starts_with_local :
    (s t p : Bytes) → length p ≤ length s → starts_with (s ++ t) p ≡ starts_with s p
unfolding starts_with
starts_with_local s t [] h = refl
starts_with_local [] t (p ∷ ps) h = absurd (omega arith)
starts_with_local (c ∷ s) t (p ∷ ps) h = ap (◌&&◌ (c == p)) (starts_with_local s t ps (omega arith))

pub starts_with_short : (s p : Bytes) → length s < length p → starts_with s p ≡ false
unfolding starts_with
starts_with_short s [] h = absurd (omega arith)
starts_with_short [] (p ∷ ps) h = refl
starts_with_short (c ∷ s) (p ∷ ps) h = ground (arith, starts_with_short s ps)

-- `s.strip_prefix(p)`
unfoldable pub strip_prefix : Bytes → Bytes → Option Bytes
strip_prefix s p = if starts_with s p then some (drop (length p) s) else none

pub strip_prefix-append : (p s : Bytes) → strip_prefix (p ++ s) p ≡ some s
unfolding strip_prefix
strip_prefix-append p s =
    rw starts_with-append (ap some (packet_browser.Prelude.drop-append_length p s (length p) refl))

-- `s.iter().position(p)`
unfoldable pub position : (ℕ → Bool) → Bytes → Option ℕ
position p [] = none
position p (c ∷ s) = if p c then some 0 else Option.map suc (position p s)

module _ (p : ℕ → Bool) where
  pub position-append_none :
      (s : Bytes) (c : ℕ) (t : Bytes)
      → All (λ x. p x ≡ false) s
      → p c ≡ true
      → position p (s ++ c ∷ t) ≡ some (length s)
  unfolding position
  position-append_none [] c t h hc = rw hc
  position-append_none (x ∷ s) c t h hc = rw (h.0, position-append_none s c t h.1 hc)

  pub position-none : (s : Bytes) → All (λ x. p x ≡ false) s → position p s ≡ none
  unfolding position
  position-none [] h = refl
  position-none (x ∷ s) h = rw (h.0, position-none s h.1)

-- `position` found byte `byte` behind `before`, where no byte passes the test.
pub record Found (p : ℕ → Bool) (s : Bytes) (i : ℕ) : Type 0 where
  pub before : Bytes
  pub byte : ℕ
  pub rest : Bytes
  pub splits : s ≡ before ++ byte ∷ rest
  pub index : i ≡ length before
  pub hit : p byte ≡ true
  pub misses : All (λ x. p x ≡ false) before

map-suc-eq-some :
    (o : Option ℕ) {i : ℕ} → Option.map suc o ≡ some i → (j : ℕ) × (o ≡ some j) × (suc j ≡ i)
map-suc-eq-some none h = cc
map-suc-eq-some (some j) h = (j, refl, some-injective _ _ h)

Found-cons :
    (p : ℕ → Bool) (x : ℕ) (s : Bytes) (j : ℕ) {i : ℕ}
    → p x ≡ false
    → suc j ≡ i
    → Found p s j
    → Found p (x ∷ s) i
Found-cons p x s j h e f = record {
  before = x ∷ f.before;
  byte = f.byte;
  rest = f.rest;
  splits = ap (◌∷◌ x) f.splits;
  index = omega (arith, f.index);
  hit = f.hit;
  misses = (h, f.misses);
}

pub position_sound : (p : ℕ → Bool) (s : Bytes) {i : ℕ} → position p s ≡ some i → Found p s i
unfolding position
position_sound p [] h = cc
position_sound p (x ∷ s) {i} h = elim (Bool-cases (p x)) [
  | inl hit ↦ record {
    before = [];
    byte = x;
    rest = s;
    splits = refl;
    index = sym (some-injective _ _ (rw hit at h));
    hit = hit;
    misses = tt;
  }
  | inr miss ↦
      let (j, found, e) = map-suc-eq-some (position p s) (rw miss at h) in
      Found-cons p x s j miss e (position_sound p s found)
]

-- More input behind a hit changes nothing.
pub position-append :
    (p : ℕ → Bool) (s t : Bytes) {i : ℕ} → position p s ≡ some i → position p (s ++ t) ≡ some i
position-append p s t {i} h =
    let f = position_sound p s h in
    let joined : s ++ t ≡ f.before ++ f.byte ∷ (f.rest ++ t) =
      ap (λ x. x ++ t) f.splits ∙ append_assoc f.before (f.byte ∷ f.rest) t in
    ap (position p) joined
    ∙ position-append_none p f.before f.byte (f.rest ++ t) f.misses f.hit
    ∙ ap some (sym f.index)

-- `haystack.windows(needle.len()).position(|w| w == needle)`, for a needle that is not empty.
unfoldable pub find : Bytes → Bytes → Option ℕ
find [] needle = none
find (c ∷ s) needle = if starts_with (c ∷ s) needle then some 0 else Option.map suc (find s needle)

-- The needle starts at no position of `s` when `t` follows it.
abbrev pub NoStart : Bytes → Bytes → Bytes → Type 0
NoStart needle [] t = Unit
NoStart needle (c ∷ s) t = (starts_with (c ∷ s ++ t) needle ≡ false) × NoStart needle s t

pub find-append_start :
    (needle s t : Bytes) (c : ℕ) (r : Bytes)
    → NoStart needle s t
    → t ≡ c ∷ r
    → starts_with t needle ≡ true
    → find (s ++ t) needle ≡ some (length s)
unfolding find
find-append_start needle [] t c r h e st =
    let here : starts_with (c ∷ r) needle ≡ true = rw e at st in rw e (rw here refl)
find-append_start needle (x ∷ s) t c r h e st = rw (h.0, find-append_start needle s t c r h.1 e st)

-- What `find` found: the needle at position `i` and nowhere before it.
pub record FoundText (needle s : Bytes) (i : ℕ) : Type 0 where
  pub before : Bytes
  pub at : Bytes
  pub splits : s ≡ before ++ at
  pub index : i ≡ length before
  pub hit : starts_with at needle ≡ true
  pub filled : (c : ℕ) × (r : Bytes) × (at ≡ c ∷ r)
  pub misses : NoStart needle before at

pub find_sound : (needle s : Bytes) {i : ℕ} → find s needle ≡ some i → FoundText needle s i
unfolding find
find_sound needle [] h = cc
find_sound needle (x ∷ s) {i} h = elim (Bool-cases (starts_with (x ∷ s) needle)) [
  | inl hit ↦ record {
    before = [];
    at = x ∷ s;
    splits = refl;
    index = sym (some-injective _ _ (rw hit at h));
    hit = hit;
    filled = (x, s, refl);
    misses = tt;
  }
  | inr miss ↦
      let (j, found, e) = map-suc-eq-some (find s needle) (rw miss at h) in
      let f = find_sound needle s found in
      record {
        before = x ∷ f.before;
        at = f.at;
        splits = ap (◌∷◌ x) f.splits;
        index = omega (arith, f.index);
        hit = f.hit;
        filled = f.filled;
        misses = (rw f.splits at miss, f.misses);
      }
]

pub starts_with_le : (s p : Bytes) → starts_with s p ≡ true → length p ≤ length s
unfolding starts_with
starts_with_le s [] h = omega arith
starts_with_le [] (p ∷ ps) h = cc
starts_with_le (c ∷ s) (p ∷ ps) h = omega (arith, starts_with_le s ps (&&_split _ _ h).1)

pub NoStart-append :
    (needle s t u : Bytes)
    → length needle ≤ length t
    → NoStart needle s t
    → NoStart needle s (t ++ u)
NoStart-append needle [] t u fits h = tt
NoStart-append needle (c ∷ s) t u fits h = (
  (ap (λ x. starts_with (c ∷ x) needle) (sym (append_assoc s t u))
      ∙ starts_with_local (c ∷ s ++ t) u needle (omega (arith, length-append s t))
      ∙ h.0),
  NoStart-append needle s t u fits h.1,
)

-- More input behind a hit changes nothing.
pub find-append :
    (needle s t : Bytes) {i : ℕ} → find s needle ≡ some i → find (s ++ t) needle ≡ some i
find-append needle s t {i} h =
    let f = find_sound needle s h in
    let (c, r, e) = f.filled in
    ap (λ x. find x needle) (ap (λ x. x ++ t) f.splits ∙ append_assoc f.before f.at t)
    ∙ find-append_start needle f.before (f.at ++ t) c (r ++ t)
        (NoStart-append needle f.before f.at t (starts_with_le f.at needle f.hit) f.misses)
        (ap (λ x. x ++ t) e)
        (starts_with_local f.at t needle (starts_with_le f.at needle f.hit) ∙ f.hit)
    ∙ ap some (sym f.index)

-- `haystack.windows(needle.len()).any(|w| w == needle)`, for a needle that is not empty.
unfoldable pub contains : Bytes → Bytes → Bool
contains [] needle = false
contains (c ∷ s) needle = starts_with (c ∷ s) needle || contains s needle
