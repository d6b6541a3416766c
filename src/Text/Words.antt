-- ===== src/Text/Words.antt =====
-- 32-bit words and their four bytes, in both orders.
use packet_browser.Prelude.{
  ℕ, ◌+◌, ◌*◌, ◌/◌, ◌%◌, ◌^◌, ◌<◌, ◌≡◌, refl, Bytes, [], ◌∷◌, ◌++◌, arith, get_or, IsBytes, ◌≤◌,
  length, drop,
}
use mathlib.Core.Path.{ap₂}

-- a cast to a narrower unsigned type
abbrev pub u32 : ℕ → ℕ
u32 n = n % 2 ^ 32

abbrev pub u8 : ℕ → ℕ
u8 n = n % 256

-- `u32::to_be_bytes`, `u32::to_le_bytes`
abbrev pub to_be_bytes : ℕ → Bytes
to_be_bytes n = (n / 2 ^ 24 % 256) ∷ (n / 2 ^ 16 % 256) ∷ (n / 2 ^ 8 % 256) ∷ (n % 256) ∷ []

abbrev pub to_le_bytes : ℕ → Bytes
to_le_bytes n = (n % 256) ∷ (n / 2 ^ 8 % 256) ∷ (n / 2 ^ 16 % 256) ∷ (n / 2 ^ 24 % 256) ∷ []

abbrev pub from_be_bytes : ℕ → ℕ → ℕ → ℕ → ℕ
from_be_bytes a b c d = a * 2 ^ 24 + b * 2 ^ 16 + c * 2 ^ 8 + d

-- The word at offset `i`, least significant byte first.
unfoldable pub le_at : Bytes → ℕ → ℕ
le_at s i =
    from_be_bytes (get_or s (i + 3) 0) (get_or s (i + 2) 0) (get_or s (i + 1) 0) (get_or s i 0)

unfoldable pub be_at : Bytes → ℕ → ℕ
be_at s i =
    from_be_bytes (get_or s i 0) (get_or s (i + 1) 0) (get_or s (i + 2) 0) (get_or s (i + 3) 0)

pub be_at-to_be_bytes : (n : ℕ) (rest : Bytes) → n < 2 ^ 32 → be_at (to_be_bytes n ++ rest) 0 ≡ n
unfolding be_at
be_at-to_be_bytes n rest h = omega arith

-- Four bytes are the encoding of the word that they spell.
pub to_be_bytes-be_at :
    (s : Bytes)
    → 4 ≤ length s
    → IsBytes s
    → (s ≡ to_be_bytes (be_at s 0) ++ drop 4 s) × (be_at s 0 < 2 ^ 32)
unfolding be_at
to_be_bytes-be_at [] h b = absurd (omega arith)
to_be_bytes-be_at (x ∷ []) h b = absurd (omega arith)
to_be_bytes-be_at (x ∷ y ∷ []) h b = absurd (omega arith)
to_be_bytes-be_at (x ∷ y ∷ z ∷ []) h b = absurd (omega arith)
to_be_bytes-be_at (x ∷ y ∷ z ∷ w ∷ s) h (hx, (hy, (hz, (hw, _)))) = (
  ap₂ ◌∷◌ (omega arith)
      (ap₂ ◌∷◌ (omega arith) (ap₂ ◌∷◌ (omega arith) (ap₂ ◌∷◌ (omega arith) refl))),
  omega arith,
)

pub le_at-to_le_bytes : (n : ℕ) (rest : Bytes) → n < 2 ^ 32 → le_at (to_le_bytes n ++ rest) 0 ≡ n
unfolding le_at
le_at-to_le_bytes n rest h = omega arith

-- The first four bytes decide.
pub le_at-append : (s t : Bytes) → 4 ≤ length s → le_at (s ++ t) 0 ≡ le_at s 0
unfolding le_at
le_at-append [] t h = absurd (omega arith)
le_at-append (x ∷ []) t h = absurd (omega arith)
le_at-append (x ∷ y ∷ []) t h = absurd (omega arith)
le_at-append (x ∷ y ∷ z ∷ []) t h = absurd (omega arith)
le_at-append (x ∷ y ∷ z ∷ w ∷ s) t h = refl
