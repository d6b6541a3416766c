-- ===== src/Client/Cache.antt =====
-- client/src/cache.rs: the pages that the client keeps, a table of SQLite. The table is its rows,
-- one for each URL; the statements of the code are what their SQL says of the rows. The order of
-- rows with the same time is SQLite's. Times are seconds; stored numbers are not negative, and the
-- cap is below 2 ^ 63, so that the casts to `i64` keep them. The mutex is not poisoned.
pub mod Lookups
pub mod Eviction
pub mod Key
pub mod Bounds
pub mod Recency
pub mod Touches
use packet_browser.Prelude.Int.{ℤ, pos, negsuc}
use packet_browser.Prelude.{
  ℕ, ◌+◌, ◌-◌, Bytes, Bool, true, false, List, [], ◌∷◌, map, Option, none, some, ltb, leb, ◌==◌,
  if◌then◌else◌, length, take, min,
}
use packet_browser.Text.Search.{equal}
use mathlib.Core.Option

pub record Row : Type 0 where
  pub url : Bytes
  pub etag : Bytes
  pub brotli_body : Bytes
  pub fetched_at : ℕ
  pub last_used : ℕ
  pub size : ℕ
  pub max_age : ℕ

pub record Cache : Type 0 where
  pub rows : List Row
  pub cap_bytes : ℕ
  pub max_ttl : ℕ

pub record Hit : Type 0 where
  pub etag : Bytes
  pub brotli_body : Bytes
  pub fetched_at : ℕ
  pub max_age : ℕ

pub record CacheEntry : Type 0 where
  pub url : Bytes
  pub etag : Bytes
  pub fetched_at : ℕ
  pub last_used : ℕ
  pub size : ℕ
  pub max_age : ℕ

-- What SQLite decides: the order of rows by `last_used`, up and down, which statements of an
-- insertion fail, and whether a statement outside of insertions goes through.
pub record Sql : Type 0 where
  pub ascending : List Row → List Row
  pub descending : List Row → List Row
  pub begins : Bool
  pub upserts : Bool
  pub sums : Bool
  pub deletes : Bytes → Bool
  pub commits : Bool
  pub executes : Bool

-- A time before the fetch is not fresh.
unfoldable pub is_fresh : Hit → ℕ → Bool
is_fresh hit now = if leb hit.fetched_at now then ltb (now - hit.fetched_at) hit.max_age else false

-- `SELECT .. WHERE url = ?1`
unfoldable pub find_row : Bytes → List Row → Option Row
find_row url [] = none
find_row url (r ∷ rs) = if equal r.url url then some r else find_row url rs

unfoldable pub hit_of : Row → Hit
hit_of r = record {
  etag = r.etag;
  brotli_body = r.brotli_body;
  fetched_at = r.fetched_at;
  max_age = r.max_age;
}

unfoldable pub lookup : Bytes → Cache → Option Hit
unfolding find_row hit_of
lookup url c = Option.map hit_of (find_row url c.rows)

-- `INSERT .. ON CONFLICT(url) DO UPDATE`
unfoldable pub upsert : Row → List Row → List Row
upsert row [] = row ∷ []
upsert row (r ∷ rs) = let rest = upsert row rs in if equal r.url row.url then row ∷ rs else r ∷ rest

-- `DELETE .. WHERE url = ?1`
unfoldable pub remove : Bytes → List Row → List Row
remove url [] = []
remove url (r ∷ rs) = let rest = remove url rs in if equal r.url url then rest else r ∷ rest

-- `SELECT COALESCE(SUM(size), 0)`
unfoldable pub total : List Row → ℕ
total [] = 0
total (r ∷ rs) = r.size + total rs

-- The loop over the victims; `over` at 0 or below is 0 here.
unfoldable pub evict : (Bytes → Bool) → Bytes → ℕ → List Row → List Row → List Row
evict deletes url over [] rows = rows
evict deletes url over (v ∷ vs) rows =
    let skipped = evict deletes url over vs rows in
    let deleted = evict deletes url (over - v.size) vs (remove v.url rows) in
    if over == 0
    then rows
    else if equal v.url url
    then skipped
    else if deletes v.url
    then deleted
    else skipped

-- `unwrap_or(0)`
unfoldable pub total_or_0 : Bool → List Row → ℕ
unfolding total
total_or_0 sums rows = if sums then total rows else 0

unfoldable pub trim_to_cap : Sql → ℕ → Bytes → List Row → List Row
unfolding evict total_or_0
trim_to_cap sql cap url rows =
    let over = total_or_0 sql.sums rows - cap in
    if ltb cap (total_or_0 sql.sums rows)
    then evict sql.deletes url over (sql.ascending rows) rows
    else rows

unfoldable pub new_row : Bytes → Bytes → Bytes → ℕ → ℕ → Row
new_row url etag brotli_body capped now = record {
  url = url;
  etag = etag;
  brotli_body = brotli_body;
  fetched_at = now;
  last_used = now;
  size = length brotli_body;
  max_age = capped;
}

-- The transaction: a failure before the commit, or of it, leaves the table as it was.
unfoldable pub transact : Sql → Row → Cache → Cache
unfolding upsert trim_to_cap
transact sql row c =
    if sql.begins
    then if sql.upserts
      then if sql.commits
        then record c { rows = trim_to_cap sql c.cap_bytes row.url (upsert row c.rows) }
        else c
      else c
    else c

unfoldable pub insert : Sql → Bytes → Bytes → Bytes → ℤ → ℕ → Cache → Cache
unfolding transact new_row
insert sql url etag brotli_body (negsuc n) now c = c
insert sql url etag brotli_body (pos server_max_age_secs) now c =
    transact sql (new_row url etag brotli_body (min server_max_age_secs c.max_ttl) now) c

-- `UPDATE .. WHERE url = ?2`
unfoldable pub update : (Row → Row) → Bytes → List Row → List Row
update change url [] = []
update change url (r ∷ rs) =
    let rest = update change url rs in if equal r.url url then change r ∷ rest else r ∷ rest

-- The error of such a statement is dropped, and leaves the table as it was.
abbrev execute : Sql → (List Row → List Row) → Cache → Cache
execute sql statement c = if sql.executes then record c { rows = statement c.rows } else c

unfoldable pub touch_fresh : Sql → Bytes → ℕ → Cache → Cache
unfolding update
touch_fresh sql url now c =
    execute sql (update (λ r. record r { fetched_at = now; last_used = now }) url) c

unfoldable pub touch_last_used : Sql → Bytes → ℕ → Cache → Cache
unfolding update
touch_last_used sql url now c = execute sql (update (λ r. record r { last_used = now }) url) c

unfoldable pub delete : Sql → Bytes → Cache → Cache
unfolding remove
delete sql url c = execute sql (remove url) c

unfoldable pub clear : Sql → Cache → Cache
clear sql c = execute sql (λ rows. []) c

unfoldable pub entry_of : Row → CacheEntry
entry_of r = record {
  url = r.url;
  etag = r.etag;
  fetched_at = r.fetched_at;
  last_used = r.last_used;
  size = r.size;
  max_age = r.max_age;
}

-- `ORDER BY last_used DESC LIMIT 200`
unfoldable pub list : Sql → Cache → List CacheEntry
unfolding entry_of
list sql c = map entry_of (take 200 (sql.descending c.rows))
