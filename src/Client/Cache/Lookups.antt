-- ===== src/Client/Cache/Lookups.antt =====
-- The cache as a map from URLs to hits: an insertion may forget other URLs, never change them.
use mathlib.Core.Option
use mathlib.Core.Path.{subst}
use packet_browser.Client.Cache.{
  Row, Cache, Hit, Sql, find_row, hit_of, lookup, upsert, remove, total_or_0, evict, trim_to_cap,
  new_row, transact, insert,
}
use packet_browser.Prelude.Int.{pos}
use packet_browser.Prelude.{
  ℕ, ◌-◌, Bytes, Bool, true, false, List, [], ◌∷◌, Option, none, some, ltb, ◌==◌, if◌then◌else◌,
  min, ◌≡◌, refl, sym, ap, ◌∙◌, ◌⊎◌, inl, inr, Bool-cases,
}
use packet_browser.Text.Search.{equal, equal_sound, equal_refl}

-- Two tests against equal texts agree.
equal_other : (a b u : Bytes) → equal a b ≡ true → equal a u ≡ false → equal b u ≡ false
equal_other a b u h m = subst (λ x. equal x u ≡ false) (equal_sound a b h) m

equal_same : (a b u : Bytes) → equal a b ≡ true → equal a u ≡ true → equal b u ≡ true
equal_same a b u h m = subst (λ x. equal x u ≡ true) (equal_sound a b h) m

pub find_row-upsert_same :
    (row : Row) (rows : List Row) → find_row row.url (upsert row rows) ≡ some row
unfolding find_row upsert
find_row-upsert_same row [] = rw (equal_refl row.url) refl
find_row-upsert_same row (r ∷ rs) = elim (Bool-cases (equal r.url row.url)) [
  | inl same ↦ rw same (rw (equal_refl row.url) refl)
  | inr other ↦ rw other (rw other (find_row-upsert_same row rs))
]

pub find_row-upsert_other :
    (row : Row) (u : Bytes) (rows : List Row)
    → equal row.url u ≡ false
    → find_row u (upsert row rows) ≡ find_row u rows
unfolding find_row upsert
find_row-upsert_other row u [] h = rw h refl
find_row-upsert_other row u (r ∷ rs) h = elim (Bool-cases (equal r.url row.url)) [
  | inl same ↦
      let e : equal r.url u ≡ false =
        subst (λ x. equal x u ≡ false) (sym (equal_sound r.url row.url same)) h in
      rw same (rw (h, e) refl)
  | inr other ↦
      rw other (ap (λ o. if equal r.url u then some r else o) (find_row-upsert_other row u rs h))
]

pub find_row-remove_other :
    (v u : Bytes) (rows : List Row)
    → equal v u ≡ false
    → find_row u (remove v rows) ≡ find_row u rows
unfolding find_row remove
find_row-remove_other v u [] h = refl
find_row-remove_other v u (r ∷ rs) h = elim (Bool-cases (equal r.url v)) [
  | inl same ↦
      let e : equal r.url u ≡ false =
        subst (λ x. equal x u ≡ false) (sym (equal_sound r.url v same)) h in
      rw same (rw e (find_row-remove_other v u rs h))
  | inr other ↦
      rw other (ap (λ o. if equal r.url u then some r else o) (find_row-remove_other v u rs h))
]

pub find_row-remove_same : (u : Bytes) (rows : List Row) → find_row u (remove u rows) ≡ none
unfolding find_row remove
find_row-remove_same u [] = refl
find_row-remove_same u (r ∷ rs) = elim (Bool-cases (equal r.url u)) [
  | inl same ↦ rw same (find_row-remove_same u rs)
  | inr other ↦ rw other (rw other (find_row-remove_same u rs))
]

-- Kept as it was, or forgotten
abbrev pub KeepsOrForgets : {A : Type 0} → Option A → Option A → Type 0
KeepsOrForgets before after = (after ≡ before) ⊎ (after ≡ none)

forget_then :
    {A : Type 0} (a b c : Option A) → KeepsOrForgets a b → KeepsOrForgets b c → KeepsOrForgets a c
forget_then a b c h (inl e) = elim h [ inl k ↦ inl (e ∙ k) | inr k ↦ inr (e ∙ k) ]
forget_then a b c h (inr e) = inr e

remove-KeepsOrForgets :
    (v u : Bytes) (rows : List Row) → KeepsOrForgets (find_row u rows) (find_row u (remove v rows))
remove-KeepsOrForgets v u rows = elim (Bool-cases (equal v u)) [
  | inl same ↦
      inr
        (ap (λ x. find_row u (remove x rows)) (equal_sound v u same) ∙ find_row-remove_same u rows)
  | inr other ↦ inl (find_row-remove_other v u rows other)
]

module _ (deletes : Bytes → Bool) (url : Bytes) where
  evict-KeepsOrForgets :
      (over : ℕ) (victims rows : List Row) (u : Bytes)
      → KeepsOrForgets (find_row u rows) (find_row u (evict deletes url over victims rows))
  unfolding evict
  evict-KeepsOrForgets over [] rows u = inl refl
  evict-KeepsOrForgets over (v ∷ vs) rows u = elim (Bool-cases (over == 0)) [
    | inl done ↦ rw done (inl refl)
    | inr more ↦ elim (Bool-cases (equal v.url url)) [
      | inl same ↦ rw (more, same) (evict-KeepsOrForgets over vs rows u)
      | inr other ↦ elim (Bool-cases (deletes v.url)) [
        | inl gone ↦
            rw (more, other, gone)
              (forget_then (find_row u rows) (find_row u (remove v.url rows)) _
                (remove-KeepsOrForgets v.url u rows)
                (evict-KeepsOrForgets (over - v.size) vs (remove v.url rows) u))
        | inr failed ↦ rw (more, other, failed) (evict-KeepsOrForgets over vs rows u)
      ]
    ]
  ]

  -- What was just inserted is never evicted.
  pub evict-keeps :
      (over : ℕ) (victims rows : List Row)
      → find_row url (evict deletes url over victims rows) ≡ find_row url rows
  unfolding evict
  evict-keeps over [] rows = refl
  evict-keeps over (v ∷ vs) rows = elim (Bool-cases (over == 0)) [
    | inl done ↦ rw done refl
    | inr more ↦ elim (Bool-cases (equal v.url url)) [
      | inl same ↦ rw (more, same) (evict-keeps over vs rows)
      | inr other ↦ elim (Bool-cases (deletes v.url)) [
        | inl gone ↦
            rw (more, other, gone)
              (evict-keeps (over - v.size) vs (remove v.url rows)
                ∙ find_row-remove_other v.url url rows other)
        | inr failed ↦ rw (more, other, failed) (evict-keeps over vs rows)
      ]
    ]
  ]

-- The operations as changes of a map from URLs to hits

trim-KeepsOrForgets :
    (sql : Sql) (cap : ℕ) (url : Bytes) (rows : List Row) (u : Bytes)
    → KeepsOrForgets (find_row u rows) (find_row u (trim_to_cap sql cap url rows))
unfolding trim_to_cap
trim-KeepsOrForgets sql cap url rows u = elim (Bool-cases (ltb cap (total_or_0 sql.sums rows))) [
  | inl over ↦ rw over (evict-KeepsOrForgets sql.deletes url _ (sql.ascending rows) rows u)
  | inr fits ↦ rw fits (inl refl)
]

pub trim-keeps :
    (sql : Sql) (cap : ℕ) (url : Bytes) (rows : List Row)
    → find_row url (trim_to_cap sql cap url rows) ≡ find_row url rows
unfolding trim_to_cap
trim-keeps sql cap url rows = elim (Bool-cases (ltb cap (total_or_0 sql.sums rows))) [
  | inl over ↦ rw over (evict-keeps sql.deletes url _ (sql.ascending rows) rows)
  | inr fits ↦ rw fits refl
]

map-KeepsOrForgets :
    {A B : Type 0} (f : A → B) (a b : Option A)
    → KeepsOrForgets a b
    → KeepsOrForgets (Option.map f a) (Option.map f b)
map-KeepsOrForgets f a b (inl e) = inl (ap (Option.map f) e)
map-KeepsOrForgets f a b (inr e) = inr (ap (Option.map f) e)

-- What an insertion puts under its URL
abbrev pub fresh_hit : Bytes → Bytes → ℕ → ℕ → Hit
fresh_hit etag brotli_body max_age now = record {
  etag = etag;
  brotli_body = brotli_body;
  fetched_at = now;
  max_age = max_age;
}

pub lookup-insert_same :
    (sql : Sql) (url etag brotli_body : Bytes) (age now : ℕ) (c : Cache)
    → sql.begins ≡ true
    → sql.upserts ≡ true
    → sql.commits ≡ true
    → lookup url (insert sql url etag brotli_body (pos age) now c)
      ≡ some (fresh_hit etag brotli_body (min age c.max_ttl) now)
unfolding insert transact lookup hit_of
lookup-insert_same sql url etag brotli_body age now c b s k =
    let row = new_row url etag brotli_body (min age c.max_ttl) now in
    rw (b, s, k)
      (ap (Option.map hit_of)
        (trim-keeps sql c.cap_bytes url (upsert row c.rows) ∙ find_row-upsert_same row c.rows))

-- A page that was inserted is found, with the age of the server or the cap of the client, the
-- lesser, if the transaction goes through; whatever the cap of the cache, it is not the one that is
-- evicted. A page at another URL is found as before, or not at all.
pub lookup-insert :
    (sql : Sql) (url etag brotli_body : Bytes) (age now : ℕ) (c : Cache) (u : Bytes)
    → sql.begins ≡ true
    → sql.upserts ≡ true
    → sql.commits ≡ true
    → equal url u ≡ false
    → let after = insert sql url etag brotli_body (pos age) now c in
      (lookup url after ≡ some (fresh_hit etag brotli_body (min age c.max_ttl) now))
      × KeepsOrForgets (lookup u c) (lookup u after)
unfolding insert transact lookup hit_of
lookup-insert sql url etag brotli_body age now c u b s k other =
    let row = new_row url etag brotli_body (min age c.max_ttl) now in
    let forgets : KeepsOrForgets (find_row u c.rows)
        (find_row u (trim_to_cap sql c.cap_bytes url (upsert row c.rows))) =
      subst
        (λ o. KeepsOrForgets o (find_row u (trim_to_cap sql c.cap_bytes url (upsert row c.rows))))
        (find_row-upsert_other row u c.rows other)
        (trim-KeepsOrForgets sql c.cap_bytes url (upsert row c.rows) u) in
    (
      lookup-insert_same sql url etag brotli_body age now c b s k,
      rw (b, s, k) (map-KeepsOrForgets hit_of _ _ forgets),
    )
