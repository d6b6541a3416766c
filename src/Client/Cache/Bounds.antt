-- ===== src/Client/Cache/Bounds.antt =====
-- Runs of operations: the table keeps its key, and its size stays within the cap, or within the
-- largest page that was inserted.
use packet_browser.Client.Cache.Eviction.{
  IsTable, IsOrdering, remove_le, IsTable-remove, evict-fits,
}
use packet_browser.Client.Cache.Key.{
  IsTable-upsert, IsTable-update, IsTable-evict, update-total, only_row,
}
use packet_browser.Client.Cache.Lookups.{find_row-upsert_same, trim-keeps}
use packet_browser.Client.Cache.{
  Row, Cache, Sql, upsert, total, total_or_0, trim_to_cap, new_row, transact, insert, touch_fresh,
  touch_last_used, delete, clear,
}
use packet_browser.Prelude.Int.{ℤ, pos, negsuc}
use packet_browser.Prelude.{
  ℕ, ◌-◌, ◌≤◌, Bytes, true, List, [], ◌∷◌, ltb, ltb→lt, ltb→le, length, min, max, ◌≡◌, refl, ◌∙◌,
  ◌⊎◌, inl, inr, arith, Bool-cases, if◌then◌else◌, All, All-imp,
}
use packet_browser.Text.Search.{equal}

-- SQLite when no statement of the eviction fails: `SELECT` gives every row once.
pub record IsSound (sql : Sql) : Type 0 where
  pub sums : sql.sums ≡ true
  pub works : (u : Bytes) → sql.deletes u ≡ true
  pub orders : (rows : List Row) → IsTable rows → IsOrdering rows (sql.ascending rows)

module _ (sql : Sql) (sound : IsSound sql) where
  trim-IsTable :
      (cap : ℕ) (url : Bytes) (rows : List Row)
      → IsTable rows
      → IsTable (trim_to_cap sql cap url rows)
  unfolding trim_to_cap
  trim-IsTable cap url rows h = elim (Bool-cases (ltb cap (total_or_0 sql.sums rows))) [
    | inl over ↦ rw over (IsTable-evict sql.deletes url _ (sql.ascending rows) rows h)
    | inr fits ↦ rw fits h
  ]

  trim_split :
      (cap : ℕ) (url : Bytes) (rows : List Row)
      → IsTable rows
      → (total (trim_to_cap sql cap url rows) ≤ cap)
        ⊎ All (λ r. equal r.url url ≡ true) (trim_to_cap sql cap url rows)
  unfolding trim_to_cap total_or_0
  trim_split cap url rows h = rw sound.sums (elim (Bool-cases (ltb cap (total rows))) [
    | inl over ↦
        let o = sound.orders rows h in
        rw over (
          evict-fits sql.deletes sound.works url cap (total rows - cap) (sql.ascending rows) rows
            (omega (arith, ltb→lt _ _ over)) o.sound o.distinct
            (All-imp rows (λ r m. inr m) o.complete))
    | inr fits ↦ rw fits (inl (ltb→le _ _ fits))
  ])

  -- Behind an insertion: within the cap, or the size of the page
  trim-total :
      (cap : ℕ) (row : Row) (rows : List Row)
      → IsTable rows
      → total (trim_to_cap sql cap row.url (upsert row rows)) ≤ max cap row.size
  trim-total cap row rows h =
      let t = IsTable-upsert row rows h in
      let kept = trim_to_cap sql cap row.url (upsert row rows) in
      elim (trim_split cap row.url (upsert row rows) t) [
        | inl fits ↦ omega (arith, fits)
        | inr only ↦
            let e =
              only_row row.url row kept (trim-IsTable cap row.url (upsert row rows) t) only
                (trim-keeps sql cap row.url (upsert row rows) ∙ find_row-upsert_same row rows) in
            omega (arith, e)
      ]

pub data Operation : Type 0 where
  insertion : Bytes → Bytes → Bytes → ℤ → ℕ → Operation
  fresh_touch use_touch : Bytes → ℕ → Operation
  deletion : Bytes → Operation
  clearing : Operation

unfoldable pub perform : Sql → Operation → Cache → Cache
unfolding insert touch_fresh touch_last_used delete clear
perform sql (insertion url etag brotli_body age now) c = insert sql url etag brotli_body age now c
perform sql (fresh_touch url now) c = touch_fresh sql url now c
perform sql (use_touch url now) c = touch_last_used sql url now c
perform sql (deletion url) c = delete sql url c
perform sql clearing c = clear sql c

unfoldable pub run : Sql → List Operation → Cache → Cache
unfolding perform
run sql [] c = c
run sql (o ∷ os) c = run sql os (perform sql o c)

-- No page inserted is larger than this.
abbrev pub IsSmall : ℕ → Operation → Type 0
IsSmall limit (insertion url etag brotli_body age now) = length brotli_body ≤ limit
IsSmall limit other = Unit

-- One row for each URL, and a size within the cap or within the limit of the pages
pub record IsKept (limit cap : ℕ) (c : Cache) : Type 0 where
  pub is_table : IsTable c.rows
  pub is_bounded : total c.rows ≤ max cap limit
  pub same_cap : c.cap_bytes ≡ cap

module _ (sql : Sql) (sound : IsSound sql) (limit cap : ℕ) where
  transact-IsKept :
      (row : Row) (c : Cache)
      → row.size ≤ limit
      → IsKept limit cap c
      → IsKept limit cap (transact sql row c)
  unfolding transact
  transact-IsKept row c small h = elim (Bool-cases sql.begins) [
    | inl b ↦ elim (Bool-cases sql.upserts) [
      | inl u ↦ elim (Bool-cases sql.commits) [
        | inl k ↦
            rw (b, u, k)
              (record {
                is_table =
                    trim-IsTable sql sound c.cap_bytes row.url (upsert row c.rows)
                      (IsTable-upsert row c.rows h.is_table);
                is_bounded =
                    omega
                      (arith, trim-total sql sound c.cap_bytes row c.rows h.is_table, h.same_cap);
                same_cap = h.same_cap;
              })
        | inr k ↦ rw (b, u, k) h
      ]
      | inr u ↦ rw (b, u) h
    ]
    | inr b ↦ rw b h
  ]

  -- A statement that may fail
  execute-IsKept :
      (c : Cache) (rows : List Row)
      → IsKept limit cap c
      → IsKept limit cap (record c { rows = rows })
      → IsKept limit cap (if sql.executes then record c { rows = rows } else c)
  execute-IsKept c rows h k = elim (Bool-cases sql.executes) [
    | inl done ↦ rw done k
    | inr failed ↦ rw failed h
  ]

  perform-IsKept :
      (o : Operation) (c : Cache)
      → IsSmall limit o
      → IsKept limit cap c
      → IsKept limit cap (perform sql o c)
  unfolding perform insert new_row touch_fresh touch_last_used delete clear total
  perform-IsKept (insertion url etag brotli_body (pos age) now) c small h =
      transact-IsKept (new_row url etag brotli_body (min age c.max_ttl) now) c small h
  perform-IsKept (insertion url etag brotli_body (negsuc n) now) c small h = h
  perform-IsKept (fresh_touch url now) c small h = execute-IsKept c _ h (record {
    is_table = IsTable-update _ url c.rows (λ r. refl) h.is_table;
    is_bounded = omega (
      arith,
      update-total (λ r. record r { fetched_at = now; last_used = now }) url c.rows (λ r. refl),
      h.is_bounded,
    );
    same_cap = h.same_cap;
  })
  perform-IsKept (use_touch url now) c small h = execute-IsKept c _ h (record {
    is_table = IsTable-update _ url c.rows (λ r. refl) h.is_table;
    is_bounded = omega (
      arith,
      update-total (λ r. record r { last_used = now }) url c.rows (λ r. refl),
      h.is_bounded,
    );
    same_cap = h.same_cap;
  })
  perform-IsKept (deletion url) c small h = execute-IsKept c _ h (record {
    is_table = IsTable-remove url c.rows h.is_table;
    is_bounded = omega (arith, remove_le url c.rows, h.is_bounded);
    same_cap = h.same_cap;
  })
  perform-IsKept clearing c small h =
      execute-IsKept c _ h
        (record { is_table = tt; is_bounded = omega arith; same_cap = h.same_cap })

  -- Whatever operations are run on a cache that holds one row for each URL and is within its cap,
  -- or within the size of the largest page, it stays so, also where a transaction fails.
  pub run-IsKept :
      (os : List Operation) (c : Cache)
      → All (IsSmall limit) os
      → IsKept limit cap c
      → IsKept limit cap (run sql os c)
  unfolding run
  run-IsKept [] c small h = h
  run-IsKept (o ∷ os) c small h =
      run-IsKept os (perform sql o c) small.1 (perform-IsKept o c small.0 h)
