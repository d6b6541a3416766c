-- ===== src/Text/Contains.antt =====
-- `contains` when more input follows, or stands in front.
use packet_browser.Prelude.{
  ℕ, ◌≤◌, Bytes, true, false, [], ◌∷◌, ◌++◌, ◌≡◌, refl, ◌∙◌, inl, inr, arith, Bool-cases, length,
}
use packet_browser.Text.Search.{starts_with, starts_with_le, starts_with_local, contains}

starts_with-append_more : (s t p : Bytes) → starts_with s p ≡ true → starts_with (s ++ t) p ≡ true
starts_with-append_more s t p h = starts_with_local s t p (starts_with_le s p h) ∙ h

-- More input behind a hit keeps it.
pub contains-append :
    (s t needle : Bytes) → contains s needle ≡ true → contains (s ++ t) needle ≡ true
unfolding contains
contains-append [] t needle h = cc
contains-append (c ∷ s) t needle h = elim (Bool-cases (starts_with (c ∷ s) needle)) [
  | inl hit ↦ rw (starts_with-append_more (c ∷ s) t needle hit) refl
  | inr miss ↦
      let later = contains-append s t needle (rw miss at h) in
      elim (Bool-cases (starts_with (c ∷ (s ++ t)) needle)) [
        | inl hit ↦ rw hit refl
        | inr miss' ↦ rw (miss', later) refl
      ]
]

-- A needle that starts behind some other text is found.
contains-append_start :
    (s : Bytes) (c : ℕ) (t needle : Bytes)
    → starts_with (c ∷ t) needle ≡ true
    → contains (s ++ c ∷ t) needle ≡ true
unfolding contains
contains-append_start [] c t needle h = rw h refl
contains-append_start (x ∷ s) c t needle h =
    elim (Bool-cases (starts_with (x ∷ (s ++ c ∷ t)) needle)) [
      | inl hit ↦ rw hit refl
      | inr miss ↦ rw (miss, contains-append_start s c t needle h) refl
    ]

-- A needle that the whole does not hold, no beginning of it holds.
pub contains-append_false :
    (s t needle : Bytes) → contains (s ++ t) needle ≡ false → contains s needle ≡ false
contains-append_false s t needle h = elim (Bool-cases (contains s needle)) [
  | inl hit ↦ let held = contains-append s t needle hit in absurd (cc)
  | inr miss ↦ miss
]

pub contains-append_text :
    (s t needle : Bytes)
    → 1 ≤ length t
    → starts_with t needle ≡ true
    → contains (s ++ t) needle ≡ true
contains-append_text s [] needle long h = absurd (omega arith)
contains-append_text s (c ∷ t) needle long h = contains-append_start s c t needle h
