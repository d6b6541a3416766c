-- ===== src/Prelude/Lists.antt =====
-- Lists measured, cut and searched by native numbers, under the library's names.
use Prim.Native.Nat.{ℕ, zero, suc, ◌+◌, ◌-◌, ◌≤◌, ◌<◌}
use Prim.Native.Char.{code}
use Prim.Native.String.{String}
use mathlib.Core.Path.{◌≡◌, refl, ap}
use mathlib.Core.Logic.{◌≢◌}
use mathlib.Core.List.{List, [], ◌∷◌, ◌++◌}
use mathlib.Core.Option.{Option, none, some}
use mathlib.Core.Bool.{Bool, false, ◌||◌}
use native.Mathlib.Omega.{arith}
use packet_browser.Prelude.Tests.{Bool-cases}
use mathlib.Core.Logic.{inl, inr}

-- Texts are UTF-8 byte strings; the numbers are bytes.
abbrev pub Bytes : Type 0
Bytes = List ℕ

-- The bytes of an ASCII literal.
abbrev pub codes : String → Bytes
codes String.[] = []
codes (String.◌∷◌ c s) = code c ∷ codes s

module _ {ℓ} {A : Type ℓ} where
  abbrev pub length : List A → ℕ
  length [] = 0
  length (x ∷ xs) = suc (length xs)

  abbrev pub take : ℕ → List A → List A
  take zero xs = []
  take (suc n) [] = []
  take (suc n) (x ∷ xs) = x ∷ take n xs

  abbrev pub drop : ℕ → List A → List A
  drop zero xs = xs
  drop (suc n) [] = []
  drop (suc n) (x ∷ xs) = drop n xs

  abbrev pub get_elem? : List A → ℕ → Option A
  get_elem? [] i = none
  get_elem? (x ∷ xs) zero = some x
  get_elem? (x ∷ xs) (suc i) = get_elem? xs i

  abbrev pub get_or : List A → ℕ → A → A
  get_or [] i d = d
  get_or (x ∷ xs) zero d = x
  get_or (x ∷ xs) (suc i) d = get_or xs i d

  abbrev pub replicate : ℕ → A → List A
  replicate zero a = []
  replicate (suc n) a = a ∷ replicate n a

  abbrev pub concat : List (List A) → List A
  concat [] = []
  concat (x ∷ xs) = x ++ concat xs

  abbrev pub any : (A → Bool) → List A → Bool
  any p [] = false
  any p (x ∷ xs) = p x || any p xs

  pub length-append : (xs ys : List A) → length (xs ++ ys) ≡ length xs + length ys
  length-append [] ys = omega arith
  length-append (x ∷ xs) ys = omega (arith, length-append xs ys)

  pub take-append_length : (xs ys : List A) (n : ℕ) → n ≡ length xs → take n (xs ++ ys) ≡ xs
  take-append_length [] ys zero h = refl
  take-append_length [] ys (suc n) h = absurd (omega arith)
  take-append_length (x ∷ xs) ys zero h = absurd (omega arith)
  take-append_length (x ∷ xs) ys (suc n) h = ap (◌∷◌ x) (take-append_length xs ys n (omega arith))

  pub drop-append_length : (xs ys : List A) (n : ℕ) → n ≡ length xs → drop n (xs ++ ys) ≡ ys
  drop-append_length [] ys zero h = refl
  drop-append_length [] ys (suc n) h = absurd (omega arith)
  drop-append_length (x ∷ xs) ys zero h = absurd (omega arith)
  drop-append_length (x ∷ xs) ys (suc n) h = drop-append_length xs ys n (omega arith)

  pub drop-drop : (m n k : ℕ) (xs : List A) → k ≡ m + n → drop k xs ≡ drop n (drop m xs)
  drop-drop zero n k xs h = let e : k ≡ n = omega arith in ap (λ j. drop j xs) e
  drop-drop (suc m) n zero xs h = absurd (omega arith)
  drop-drop (suc m) zero (suc k) [] h = refl
  drop-drop (suc m) (suc n) (suc k) [] h = refl
  drop-drop (suc m) n (suc k) (x ∷ xs) h = drop-drop m n k xs (omega arith)

  pub take-length : (xs : List A) → take (length xs) xs ≡ xs
  take-length [] = refl
  take-length (x ∷ xs) = ap (◌∷◌ x) (take-length xs)

  pub take-append-drop : (n : ℕ) (xs : List A) → take n xs ++ drop n xs ≡ xs
  take-append-drop zero xs = refl
  take-append-drop (suc n) [] = refl
  take-append-drop (suc n) (x ∷ xs) = ap (◌∷◌ x) (take-append-drop n xs)

  pub length-drop : (n : ℕ) (xs : List A) → length (drop n xs) ≡ length xs - n
  length-drop zero xs = omega arith
  length-drop (suc n) [] = omega arith
  length-drop (suc n) (x ∷ xs) = omega (arith, length-drop n xs)

  pub length-take_le : (n : ℕ) (xs : List A) → n ≤ length xs → length (take n xs) ≡ n
  length-take_le zero xs h = refl
  length-take_le (suc n) [] h = absurd (omega arith)
  length-take_le (suc n) (x ∷ xs) h = ap suc (length-take_le n xs (omega arith))

  pub length-replicate : (n : ℕ) (a : A) → length (replicate n a) ≡ n
  length-replicate zero a = refl
  length-replicate (suc n) a = ap suc (length-replicate n a)

-- Within `xs` a cut of `xs ++ ys` does not see `ys`; behind it, it sees nothing else.
module _ {ℓ} {A : Type ℓ} where
  pub take-append_le : (n : ℕ) (xs ys : List A) → n ≤ length xs → take n (xs ++ ys) ≡ take n xs
  take-append_le zero xs ys h = refl
  take-append_le (suc n) [] ys h = absurd (omega arith)
  take-append_le (suc n) (x ∷ xs) ys h = ap (◌∷◌ x) (take-append_le n xs ys (omega arith))

  pub drop-append_le :
      (n : ℕ) (xs ys : List A) → n ≤ length xs → drop n (xs ++ ys) ≡ drop n xs ++ ys
  drop-append_le zero xs ys h = refl
  drop-append_le (suc n) [] ys h = absurd (omega arith)
  drop-append_le (suc n) (x ∷ xs) ys h = drop-append_le n xs ys (omega arith)

  pub drop-append_add :
      (m n : ℕ) (xs ys : List A) → n ≡ length xs + m → drop n (xs ++ ys) ≡ drop m ys
  drop-append_add m n [] ys h = ap (λ k. drop k ys) (let e : n ≡ m = omega arith in e)
  drop-append_add m zero (x ∷ xs) ys h = absurd (omega arith)
  drop-append_add m (suc n) (x ∷ xs) ys h = drop-append_add m n xs ys (omega arith)

module _ {ℓ κ} {A : Type ℓ} (P : A → Type κ) where
  abbrev pub All : List A → Type κ
  All [] = Unit
  All (x ∷ xs) = P x × All xs

  pub All-append : (xs ys : List A) → All xs → All ys → All (xs ++ ys)
  All-append [] ys hx hy = hy
  All-append (x ∷ xs) ys hx hy = (hx.0, All-append xs ys hx.1 hy)

  pub All-append_split : (xs ys : List A) → All (xs ++ ys) → All xs × All ys
  All-append_split [] ys h = (tt, h)
  All-append_split (x ∷ xs) ys h = let (hx, hy) = All-append_split xs ys h.1 in ((h.0, hx), hy)

  pub All-take : (n : ℕ) (xs : List A) → All xs → All (take n xs)
  All-take zero xs h = tt
  All-take (suc n) [] h = tt
  All-take (suc n) (x ∷ xs) h = (h.0, All-take n xs h.1)

  pub All-drop : (n : ℕ) (xs : List A) → All xs → All (drop n xs)
  All-drop zero xs h = h
  All-drop (suc n) [] h = tt
  All-drop (suc n) (x ∷ xs) h = All-drop n xs h.1

pub any_none {ℓ} :
    {A : Type ℓ} (p : A → Bool) (xs : List A) → any p xs ≡ false → All (λ x. p x ≡ false) xs
any_none p [] h = tt
any_none p (x ∷ xs) h = elim (Bool-cases (p x)) [
  | inl hit ↦ absurd (ground (arith, hit, h))
  | inr miss ↦ (miss, any_none p xs (ground (arith, miss, h)))
]

pub All-imp {ℓ κ μ} :
    {A : Type ℓ} {P : A → Type κ} {Q : A → Type μ} (xs : List A)
    → ((a : A) → P a → Q a)
    → All P xs
    → All Q xs
All-imp [] f h = tt
All-imp (x ∷ xs) f h = (f x h.0, All-imp xs f h.1)

abbrev pub Lacks : ℕ → Bytes → Type 0
Lacks b = All (λ c. c ≢ b)

abbrev pub IsBytes : Bytes → Type 0
IsBytes = All (λ c. c < 256)
