-- ===== src/Text/Split.antt =====
-- `split(c)` for one separator byte, and `split_once(needle)`.
use packet_browser.Prelude.{
  ℕ, ◌+◌, ◌≡◌, refl, sym, ap, ◌∙◌, Bytes, List, [], ◌∷◌, ◌++◌, Option, none, some, arith, ◌==◌,
  if◌then◌else◌, length, drop, Lacks, drop-append_length, drop-append_add, take, take-append_length,
  Option-cases, inl, inr,
}
use packet_browser.Text.Search.{
  find, starts_with-append, starts_with_sound, NoStart, find-append_start, find_sound,
}

index_add : {k : ℕ} (i : ℕ) (needle : Bytes) → i ≡ k → i + length needle ≡ k + length needle
index_add i needle h = ap (λ j. j + length needle) h

pub some_pair :
    {A B : Type 0} {x a : A} {y b : B}
    → ◌≡◌ {A = Option (A × B)} (some (x, y)) (some (a, b))
    → (x ≡ a) × (y ≡ b)
some_pair h = (cc, cc)

push : ℕ → List Bytes → List Bytes
push c [] = (c ∷ []) ∷ []
push c (p ∷ ps) = (c ∷ p) ∷ ps

-- `s.split(sep)`: always at least one part
unfoldable pub split : ℕ → Bytes → List Bytes
unfolding push
split sep [] = [] ∷ []
split sep (c ∷ s) = let rest = split sep s in if c == sep then [] ∷ rest else push c rest

module _ (sep : ℕ) where
  pub split_last : (p : Bytes) → Lacks sep p → split sep p ≡ p ∷ []
  unfolding split
  split_last [] h = refl
  split_last (c ∷ p) h = ground (arith, split_last p h.1)

  pub split-append :
      (p : Bytes) (rest : Bytes) → Lacks sep p → split sep (p ++ sep ∷ rest) ≡ p ∷ split sep rest
  unfolding split
  split-append [] rest h = ground arith
  split-append (c ∷ p) rest h = ground (arith, split-append p rest h.1)

cut_at : Option ℕ → Bytes → Bytes → Option (Bytes × Bytes)
cut_at none s needle = none
cut_at (some i) s needle = some (take i s, drop (i + length needle) s)

-- `s.split_once(needle)`, for a needle that is not empty
unfoldable pub split_once : Bytes → Bytes → Option (Bytes × Bytes)
unfolding cut_at
split_once s needle = cut_at (find s needle) s needle

cut_at-append :
    (a b needle : Bytes) → cut_at (some (length a)) (a ++ (needle ++ b)) needle ≡ some (a, b)
unfolding cut_at
cut_at-append a b needle = λ i. some (
  take-append_length a (needle ++ b) (length a) refl i,
  (drop-append_add (length needle) (length a + length needle) a (needle ++ b) refl
        ∙ drop-append_length needle b (length needle) refl)
      i,
)

-- The first occurrence of the needle is the one behind `a`.
pub split_once-append :
    (needle a b : Bytes) (c : ℕ) (r : Bytes)
    → needle ≡ c ∷ r
    → NoStart needle a (needle ++ b)
    → split_once (a ++ (needle ++ b)) needle ≡ some (a, b)
unfolding split_once
split_once-append needle a b c r e h =
    let at : find (a ++ (needle ++ b)) needle ≡ some (length a) =
      find-append_start needle a (needle ++ b) c (r ++ b) h (ap (λ x. x ++ b) e)
        (starts_with-append needle b) in
    rw at (cut_at-append a b needle)

pub split_once-none : (s needle : Bytes) → find s needle ≡ none → split_once s needle ≡ none
unfolding split_once
split_once-none s needle h = rw h

-- What was split is put together again by the needle.
pub split_once_sound :
    (s needle : Bytes) {a b : Bytes} → split_once s needle ≡ some (a, b) → s ≡ a ++ (needle ++ b)
unfolding split_once
split_once_sound s needle {a} {b} h = elim (Option-cases (find s needle)) [
  | inl none' ↦ absurd (cc (rw none' at h))
  | inr (i, e) ↦
      let f = find_sound needle s e in
      let spelled = starts_with_sound f.at needle f.hit in
      let cut : some (take i s, drop (i + length needle) s) ≡ some (a, b) = rw e at h in
      let left : take i s ≡ f.before =
        ap (take i) f.splits ∙ take-append_length f.before f.at i f.index in
      let right : drop (i + length needle) s ≡ drop (length needle) f.at =
        ap (drop (i + length needle)) f.splits
        ∙ drop-append_add (length needle) (i + length needle) f.before f.at
            (index_add i needle f.index) in
      let (ea, eb) = some_pair cut in
      f.splits
      ∙ ap (◌++◌ f.before) spelled
      ∙ ap (λ x. x ++ (needle ++ drop (length needle) f.at)) (sym left ∙ ea)
      ∙ ap (λ x. a ++ (needle ++ x)) (sym right ∙ eb)
]
