-- ===== src/Client/Cache/Recency.antt =====
-- The pages that go are those that were used least recently.
use packet_browser.Client.Cache.Eviction.{Mem, IsTable, IsOrdering, Mem-remove, equal_refl_not}
use packet_browser.Client.Cache.{Row, Sql, remove, total_or_0, evict, trim_to_cap}
use packet_browser.Prelude.{
  ℕ, ◌-◌, ◌≤◌, Bytes, Bool, true, false, List, [], ◌∷◌, ltb, ◌==◌, ◌≡◌, sym, ap, ◌∙◌, ◌⊎◌, inl, inr,
  arith, Bool-cases, All,
}
use packet_browser.Text.Search.{equal}

-- By `last_used`, the least first
abbrev pub IsAscending : List Row → Type 0
IsAscending [] = Unit
IsAscending (r ∷ rs) = All (λ x. r.last_used ≤ x.last_used) rs × IsAscending rs

All-Mem : (P : Row → Type 0) (r : Row) (rows : List Row) → All P rows → Mem r rows → P r
All-Mem P r [] h m = absurd m
All-Mem P r (x ∷ rows) h (inl e) = mathlib.Core.Path.subst P (sym e) h.0
All-Mem P r (x ∷ rows) h (inr m) = All-Mem P r rows h.1 m

Mem-removed :
    (w : Row) (u : Bytes) (rows : List Row)
    → Mem w (remove u rows)
    → Mem w rows × (equal w.url u ≡ false)
unfolding remove
Mem-removed w u [] h = absurd h
Mem-removed w u (r ∷ rs) h = elim (Bool-cases (equal r.url u)) [
  | inl same ↦
      let later : Mem w (remove u rs) = rw same at h in
      let (m, d) = Mem-removed w u rs later in (inr m, d)
  | inr other ↦
      let here : (w ≡ r) ⊎ Mem w (remove u rs) = rw other at h in
      elim here [
        | inl e ↦ (inl e, ap (λ x. equal x.url u) e ∙ other)
        | inr later ↦ let (m, d) = Mem-removed w u rs later in (inr m, d)
      ]
]

module _ (deletes : Bytes → Bool) (works : (u : Bytes) → deletes u ≡ true) (url : Bytes) where
  Mem-evict :
      (w : Row) (over : ℕ) (victims rows : List Row)
      → Mem w (evict deletes url over victims rows)
      → Mem w rows
  unfolding evict
  Mem-evict w over [] rows h = h
  Mem-evict w over (v ∷ vs) rows h = elim (Bool-cases (over == 0)) [
    | inl done ↦ rw done at h
    | inr more ↦ elim (Bool-cases (equal v.url url)) [
      | inl same ↦ Mem-evict w over vs rows (rw (more, same) at h)
      | inr other ↦
          (Mem-removed w v.url rows (
            Mem-evict w (over - v.size) vs (remove v.url rows)
              (rw (more, other, works v.url) at h))).0
    ]
  ]

  evict_keeps_own :
      (r : Row) (over : ℕ) (victims rows : List Row)
      → equal r.url url ≡ true
      → Mem r rows
      → Mem r (evict deletes url over victims rows)
  unfolding evict
  evict_keeps_own r over [] rows own h = h
  evict_keeps_own r over (v ∷ vs) rows own h = elim (Bool-cases (over == 0)) [
    | inl done ↦ rw done h
    | inr more ↦ elim (Bool-cases (equal v.url url)) [
      | inl same ↦ rw (more, same) (evict_keeps_own r over vs rows own h)
      | inr other ↦
          rw (more, other, works v.url)
            (evict_keeps_own r (over - v.size) vs (remove v.url rows) own
              (Mem-remove r v.url rows (different v other) h))
    ]
  ]
    where
      different : (v : Row) → equal v.url url ≡ false → equal r.url v.url ≡ false
      different v other = elim (Bool-cases (equal r.url v.url)) [
        | inl e ↦ absurd (
            let same = packet_browser.Text.Search.equal_sound r.url v.url e in
            let t : equal v.url url ≡ true = ap (λ u. equal u url) (sym same) ∙ own in cc)
        | inr d ↦ d
      ]

  evict_least :
      (r w : Row) (over : ℕ) (victims rows : List Row)
      → IsAscending victims
      → IsTable victims
      → Mem r victims
      → Mem w victims
      → Mem r rows
      → (Mem r (evict deletes url over victims rows) → ⊥)
      → Mem w (evict deletes url over victims rows)
      → equal w.url url ≡ false
      → r.last_used ≤ w.last_used
  unfolding evict
  evict_least r w over [] rows a t vr vw mr gone kept other = absurd vr
  evict_least r w over (v ∷ vs) rows a t vr vw mr gone kept other = elim (Bool-cases (over == 0)) [
    | inl done ↦ absurd (gone (rw done mr))
    | inr more ↦ elim (Bool-cases (equal v.url url)) [
      | inl same ↦
          let gone' : Mem r (evict deletes url over vs rows) → ⊥ = rw (more, same) at gone in
          let kept' : Mem w (evict deletes url over vs rows) = rw (more, same) at kept in
          elim vw [
            | inl e ↦
                absurd (let c : equal w.url url ≡ true = ap (λ x. equal x.url url) e ∙ same in cc)
            | inr vw' ↦ elim vr [
              | inl e ↦
                  absurd
                    (gone' (evict_keeps_own r over vs rows (ap (λ x. equal x.url url) e ∙ same) mr))
              | inr vr' ↦ evict_least r w over vs rows a.1 t.1 vr' vw' mr gone' kept' other
            ]
          ]
      | inr differs ↦
          let rest = remove v.url rows in
          let gone' : Mem r (evict deletes url (over - v.size) vs rest) → ⊥ =
            rw (more, differs, works v.url) at gone in
          let kept' : Mem w (evict deletes url (over - v.size) vs rest) =
            rw (more, differs, works v.url) at kept in
          let apart = (Mem-removed w v.url rows (Mem-evict w (over - v.size) vs rest kept')).1 in
          elim vw [
            | inl e ↦ absurd (equal_refl_not v.url (ap (λ x. equal x.url v.url) (sym e) ∙ apart))
            | inr vw' ↦ elim vr [
              | inl e ↦ omega (arith, All-Mem _ w vs a.0 vw', ap (λ x. x.last_used) e)
              | inr vr' ↦
                  evict_least r w (over - v.size) vs rest a.1 t.1 vr' vw'
                    (Mem-remove r v.url rows (All-Mem (λ x. equal x.url v.url ≡ false) r vs t.0 vr')
                      mr)
                    gone' kept' other
            ]
          ]
    ]
  ]

-- A row that an insertion evicts was used no later than any row that it keeps, but for the one
-- inserted, if SQLite gives the rows by the time of their use and its deletions go through.
pub trim_to_cap_least :
    (sql : Sql) (cap : ℕ) (url : Bytes) (rows : List Row)
    → ((u : Bytes) → sql.deletes u ≡ true)
    → IsOrdering rows (sql.ascending rows)
    → IsAscending (sql.ascending rows)
    → (r w : Row) → Mem r rows
    → (Mem r (trim_to_cap sql cap url rows) → ⊥)
    → Mem w (trim_to_cap sql cap url rows)
    → equal w.url url ≡ false
    → r.last_used ≤ w.last_used
unfolding trim_to_cap
trim_to_cap_least sql cap url rows works order ascending r w mr gone kept other =
    elim (Bool-cases (ltb cap (total_or_0 sql.sums rows))) [
      | inl over ↦
          let gone' : Mem r
                (evict sql.deletes url (total_or_0 sql.sums rows - cap) (sql.ascending rows) rows)
              → ⊥ =
            rw over at gone in
          let kept' : Mem w
              (evict sql.deletes url (total_or_0 sql.sums rows - cap) (sql.ascending rows) rows) =
            rw over at kept in
          evict_least sql.deletes works url r w _ (sql.ascending rows) rows ascending order.distinct
            (All-Mem _ r rows order.complete mr)
            (All-Mem _ w rows order.complete
              (Mem-evict sql.deletes works url w _ (sql.ascending rows) rows kept'))
            mr gone' kept' other
      | inr fits ↦ absurd (gone (rw fits mr))
    ]
