-- ===== src/Client/Cache/Eviction.antt =====
-- The size of the cache: an insertion leaves it within the cap, or leaves the new page alone.
use packet_browser.Client.Cache.{Row, remove, total, evict}
use packet_browser.Prelude.{
  ℕ, ◌+◌, ◌-◌, ◌≤◌, Bytes, Bool, true, false, List, [], ◌∷◌, ◌==◌, ==_iff, ◌≡◌, sym, ap, ◌∙◌, ◌⊎◌,
  inl, inr, arith, Bool-cases, All, All-imp,
}
use packet_browser.Text.Search.{equal, equal_refl}

-- The rows hold a row that is this one.
abbrev pub Mem : Row → List Row → Type 0
Mem r [] = ⊥
Mem r (x ∷ xs) = (r ≡ x) ⊎ Mem r xs

-- The primary key: no two rows share a URL.
abbrev pub IsTable : List Row → Type 0
IsTable [] = Unit
IsTable (r ∷ rs) = All (λ x. equal x.url r.url ≡ false) rs × IsTable rs

abbrev pub Among : List Row → List Row → Type 0
Among rows = All (λ r. Mem r rows)

pub equal_refl_not : (u : Bytes) → equal u u ≡ false → ⊥
equal_refl_not u h = let e = equal_refl u in cc

pub remove_le : (u : Bytes) (rows : List Row) → total (remove u rows) ≤ total rows
unfolding total remove
remove_le u [] = omega arith
remove_le u (r ∷ rs) = elim (Bool-cases (equal r.url u)) [
  | inl same ↦ rw same (omega (arith, remove_le u rs))
  | inr other ↦ rw other (omega (arith, remove_le u rs))
]

remove-total :
    (v : Row) (rows : List Row) → Mem v rows → total (remove v.url rows) + v.size ≤ total rows
unfolding total remove
remove-total v [] h = absurd h
remove-total v (r ∷ rs) (inl e) =
    rw (ap (λ x. equal x.url v.url) (sym e) ∙ equal_refl v.url)
      (omega (arith, remove_le v.url rs, ap (λ x. x.size) e))
remove-total v (r ∷ rs) (inr h) = elim (Bool-cases (equal r.url v.url)) [
  | inl same ↦ rw same (omega (arith, remove-total v rs h))
  | inr other ↦ rw other (omega (arith, remove-total v rs h))
]

pub Mem-remove :
    (v : Row) (u : Bytes) (rows : List Row)
    → equal v.url u ≡ false
    → Mem v rows
    → Mem v (remove u rows)
unfolding remove
Mem-remove v u [] other h = h
Mem-remove v u (r ∷ rs) other (inl e) = rw (ap (λ x. equal x.url u) (sym e) ∙ other) (inl e)
Mem-remove v u (r ∷ rs) other (inr h) = elim (Bool-cases (equal r.url u)) [
  | inl same ↦ rw same (Mem-remove v u rs other h)
  | inr different ↦ rw different (inr (Mem-remove v u rs other h))
]

-- What held of every row holds of those left, and they have other URLs.
pub All-remove :
    (P : Row → Type 0) (u : Bytes) (rows : List Row)
    → All P rows
    → All (λ r. P r × (equal r.url u ≡ false)) (remove u rows)
unfolding remove
All-remove P u [] h = tt
All-remove P u (r ∷ rs) h = elim (Bool-cases (equal r.url u)) [
  | inl same ↦ rw same (All-remove P u rs h.1)
  | inr other ↦ rw other ((h.0, other), All-remove P u rs h.1)
]

pub IsTable-remove : (u : Bytes) (rows : List Row) → IsTable rows → IsTable (remove u rows)
unfolding remove
IsTable-remove u [] h = tt
IsTable-remove u (r ∷ rs) h = elim (Bool-cases (equal r.url u)) [
  | inl same ↦ rw same (IsTable-remove u rs h.1)
  | inr other ↦
      rw other (All-imp (remove u rs) (λ x p. p.0) (All-remove _ u rs h.0), IsTable-remove u rs h.1)
]

-- How SQLite gives the rows in order: each row once.
pub record IsOrdering (rows victims : List Row) : Type 0 where
  pub sound : Among rows victims
  pub distinct : IsTable victims
  pub complete : Among victims rows

module _ (deletes : Bytes → Bool) (works : (u : Bytes) → deletes u ≡ true) (url : Bytes)
    (cap : ℕ) where
  abbrev pub Left : List Row → Row → Type 0
  Left victims r = (equal r.url url ≡ true) ⊎ Mem r victims

  pub evict-fits :
      (over : ℕ) (victims rows : List Row)
      → total rows ≤ cap + over
      → Among rows victims
      → IsTable victims
      → All (Left victims) rows
      → (total (evict deletes url over victims rows) ≤ cap)
        ⊎ All (λ r. equal r.url url ≡ true) (evict deletes url over victims rows)
  unfolding evict
  evict-fits over [] rows size sound distinct left =
      inr (All-imp rows (λ r l. elim l [ inl same ↦ same | inr no' ↦ absurd no' ]) left)
  evict-fits over (v ∷ vs) rows size sound distinct left = elim (Bool-cases (over == 0)) [
    | inl done ↦ rw done (inl (let z = (==_iff over 0).0 done in omega (arith, z)))
    | inr more ↦ elim (Bool-cases (equal v.url url)) [
      | inl same ↦
          rw (more, same)
            (evict-fits over vs rows size sound.1 distinct.1 (
              All-imp rows
                (λ r l. elim l [
                  | inl e ↦ inl e
                  | inr (inl e) ↦ inl (ap (λ x. equal x.url url) e ∙ same)
                  | inr (inr h) ↦ inr h
                ])
                left))
      | inr other ↦
          let rest = remove v.url rows in
          rw (more, other, works v.url)
            (evict-fits (over - v.size) vs rest (omega (arith, remove-total v rows sound.0))
              (still vs distinct.0 sound.1) distinct.1
              (All-imp rest
                (λ r l. elim l.0 [
                  | inl e ↦ inl e
                  | inr (inl e) ↦
                      absurd (equal_refl_not v.url (ap (λ x. equal x.url v.url) (sym e) ∙ l.1))
                  | inr (inr h) ↦ inr h
                ])
                (All-remove (Left (v ∷ vs)) v.url rows left)))
    ]
  ]
    where
      still :
          (ws : List Row)
          → All (λ x. equal x.url v.url ≡ false) ws
          → Among rows ws
          → Among (remove v.url rows) ws
      still [] d h = tt
      still (w ∷ ws) d h = (Mem-remove w v.url rows d.0 h.0, still ws d.1 h.1)
