-- ===== src/Client/Cache/Touches.antt =====
-- A page that was revalidated is fresh again from then on; nothing else changes.
use mathlib.Core.Option
use packet_browser.Client.Cache.{
  Row, Cache, Sql, Hit, find_row, hit_of, lookup, update, touch_fresh,
}
use packet_browser.Prelude.{
  ℕ, Bytes, true, List, [], ◌∷◌, Option, none, some, if◌then◌else◌, ◌&&◌, ◌≡◌, refl, sym, ap, ◌∙◌,
  inl, inr, Bool-cases,
}
use packet_browser.Text.Search.{equal, equal_sound, equal_refl}

module _ (change : Row → Row) (keeps : (r : Row) → (change r).url ≡ r.url) (url u : Bytes) where
  find_row-update :
      (rows : List Row)
      → find_row u (update change url rows)
        ≡ (if equal url u then Option.map change (find_row u rows) else find_row u rows)
  unfolding find_row update
  find_row-update [] = elim (Bool-cases (equal url u)) [ inl e ↦ rw e refl | inr e ↦ rw e refl ]
  find_row-update (r ∷ rs) = elim (Bool-cases (equal r.url url)) [
    | inl same ↦
        let e : equal r.url u ≡ equal url u = ap (λ x. equal x u) (equal_sound r.url url same) in
        let e' : equal (change r).url u ≡ equal url u = ap (λ x. equal x u) (keeps r) ∙ e in
        rw same (elim (Bool-cases (equal url u)) [
          | inl hit ↦ rw (e' ∙ hit, e ∙ hit, hit) refl
          | inr miss ↦ rw (e' ∙ miss, e ∙ miss) (find_row-update rs ∙ rw miss refl)
        ])
    | inr other ↦ rw other (elim (Bool-cases (equal r.url u)) [
      | inl hit ↦ rw hit (elim (Bool-cases (equal url u)) [
        | inl e ↦ absurd (
            let s : r.url ≡ url = equal_sound r.url u hit ∙ sym (equal_sound url u e) in
            let t : equal r.url url ≡ true = ap (λ x. equal x url) s ∙ equal_refl url in cc)
        | inr e ↦ rw e refl
      ])
      | inr miss ↦ rw miss (find_row-update rs)
    ])
  ]

abbrev pub refetched_row : ℕ → Row → Row
refetched_row now r = record r { fetched_at = now; last_used = now }

-- The hit of a page that the server said has not changed
abbrev pub refetched : ℕ → Hit → Hit
refetched now hit = record hit { fetched_at = now }

-- `touch_fresh` sets the time of the page at its URL, if its statement goes through, for the lookup
-- behind it; every other page, and every page if the statement fails, is found as before.
pub lookup-touch_fresh :
    (sql : Sql) (url u : Bytes) (now : ℕ) (c : Cache)
    → lookup u (touch_fresh sql url now c) ≡ (
        if sql.executes && equal url u then Option.map (refetched now) (lookup u c) else lookup u c)
unfolding lookup touch_fresh hit_of
lookup-touch_fresh sql url u now c = elim (Bool-cases sql.executes) [
  | inl done ↦ rw done (
      ap (Option.map hit_of) (find_row-update (refetched_row now) (λ r. refl) url u c.rows)
      ∙ elim (Bool-cases (equal url u)) [
        | inl e ↦ rw e (mapped (find_row u c.rows))
        | inr e ↦ rw e refl
      ])
  | inr failed ↦ rw failed refl
]
  where
    mapped :
        (o : Option Row)
        → Option.map hit_of (Option.map (refetched_row now) o)
          ≡ Option.map (refetched now) (Option.map hit_of o)
    mapped none = refl
    mapped (some r) = refl
