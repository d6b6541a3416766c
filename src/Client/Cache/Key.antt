-- ===== src/Client/Cache/Key.antt =====
-- The primary key of the table: no operation gives two rows one URL.
use mathlib.Core.Path.{subst}
use packet_browser.Client.Cache.Eviction.{IsTable, IsTable-remove}
use packet_browser.Client.Cache.{Row, find_row, upsert, remove, total, evict, update}
use packet_browser.Prelude.{
  ℕ, ◌-◌, Bytes, Bool, true, false, List, [], ◌∷◌, some, ◌==◌, ◌≡◌, refl, sym, ap, ◌∙◌, inl, inr,
  arith, Bool-cases, All,
}
use packet_browser.Text.Search.{equal, equal_sound, equal_refl}
use mathlib.Core.Option.{some-injective}

module _ (P : Row → Type 0) where
  All-upsert : (row : Row) (rows : List Row) → P row → All P rows → All P (upsert row rows)
  unfolding upsert
  All-upsert row [] p h = (p, tt)
  All-upsert row (r ∷ rs) p h = elim (Bool-cases (equal r.url row.url)) [
    | inl same ↦ rw same (p, h.1)
    | inr other ↦ rw other (h.0, All-upsert row rs p h.1)
  ]

  All-update :
      (change : Row → Row) (url : Bytes) (rows : List Row)
      → ((r : Row) → P r → P (change r))
      → All P rows
      → All P (update change url rows)
  unfolding update
  All-update change url [] f h = tt
  All-update change url (r ∷ rs) f h = elim (Bool-cases (equal r.url url)) [
    | inl same ↦ rw same (f r h.0, All-update change url rs f h.1)
    | inr other ↦ rw other (h.0, All-update change url rs f h.1)
  ]

pub IsTable-upsert : (row : Row) (rows : List Row) → IsTable rows → IsTable (upsert row rows)
unfolding upsert
IsTable-upsert row [] h = (tt, tt)
IsTable-upsert row (r ∷ rs) h = elim (Bool-cases (equal r.url row.url)) [
  | inl same ↦
      rw same
        (subst (λ u. All (λ x. equal x.url u ≡ false) rs) (equal_sound r.url row.url same) h.0, h.1)
  | inr other ↦
      rw other
        (All-upsert _ row rs (not_equal_sym r.url row.url other) h.0, IsTable-upsert row rs h.1)
]
  where
    not_equal_sym : (a b : Bytes) → equal a b ≡ false → equal b a ≡ false
    not_equal_sym a b h = elim (Bool-cases (equal b a)) [
      | inl same ↦
          let e = equal_sound b a same in
          absurd (
            let t = equal_refl a in
            let f : equal a a ≡ false = subst (λ x. equal a x ≡ false) e h in cc)
      | inr other ↦ other
    ]

pub IsTable-update :
    (change : Row → Row) (url : Bytes) (rows : List Row)
    → ((r : Row) → (change r).url ≡ r.url)
    → IsTable rows
    → IsTable (update change url rows)
unfolding update
IsTable-update change url [] k h = tt
IsTable-update change url (r ∷ rs) k h =
    let rest =
      All-update (λ x. equal x.url r.url ≡ false) change url rs
        (λ x d. ap (λ u. equal u r.url) (k x) ∙ d) h.0 in
    elim (Bool-cases (equal r.url url)) [
      | inl same ↦ rw same (
        subst (λ u. All (λ x. equal x.url u ≡ false) (update change url rs)) (sym (k r)) rest,
        IsTable-update change url rs k h.1,
      )
      | inr other ↦ rw other (rest, IsTable-update change url rs k h.1)
    ]

pub update-total :
    (change : Row → Row) (url : Bytes) (rows : List Row)
    → ((r : Row) → (change r).size ≡ r.size)
    → total (update change url rows) ≡ total rows
unfolding update total
update-total change url [] k = refl
update-total change url (r ∷ rs) k = elim (Bool-cases (equal r.url url)) [
  | inl same ↦ rw same (omega (arith, update-total change url rs k, k r))
  | inr other ↦ rw other (omega (arith, update-total change url rs k))
]

pub IsTable-evict :
    (deletes : Bytes → Bool) (url : Bytes) (over : ℕ) (victims rows : List Row)
    → IsTable rows
    → IsTable (evict deletes url over victims rows)
unfolding evict
IsTable-evict deletes url over [] rows h = h
IsTable-evict deletes url over (v ∷ vs) rows h = elim (Bool-cases (over == 0)) [
  | inl done ↦ rw done h
  | inr more ↦ elim (Bool-cases (equal v.url url)) [
    | inl same ↦ rw (more, same) (IsTable-evict deletes url over vs rows h)
    | inr other ↦ elim (Bool-cases (deletes v.url)) [
      | inl gone ↦
          rw (more, other, gone)
            (IsTable-evict deletes url (over - v.size) vs (remove v.url rows)
              (IsTable-remove v.url rows h))
      | inr failed ↦ rw (more, other, failed) (IsTable-evict deletes url over vs rows h)
    ]
  ]
]

-- A table whose only URL is this one holds this row and no other.
pub only_row :
    (url : Bytes) (row : Row) (rows : List Row)
    → IsTable rows
    → All (λ r. equal r.url url ≡ true) rows
    → find_row url rows ≡ some row
    → total rows ≡ row.size
unfolding find_row total
only_row url row [] t a f = cc
only_row url row (r ∷ []) t a f =
    let e = some-injective _ _ (rw a.0 at f) in omega (arith, ap (λ x. x.size) e)
only_row url row (r ∷ x ∷ rs) t a f = absurd (
    let e = equal_sound r.url url a.0 in
    let d : equal x.url url ≡ false = subst (λ u. equal x.url u ≡ false) e t.0.0 in
    let s = a.1.0 in cc)
