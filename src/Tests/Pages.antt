-- ===== src/Tests/Pages.antt =====
-- The theorems on client/src/cache.rs at concrete inputs.
use packet_browser.Client.Cache.Bounds.{
  IsSound, IsKept, Operation, insertion, fresh_touch, run, run-IsKept,
}
use packet_browser.Client.Cache.Eviction.{Mem, IsTable, Among, IsOrdering}
use packet_browser.Client.Cache.Lookups.{KeepsOrForgets, fresh_hit, lookup-insert}
use packet_browser.Client.Cache.Recency.{trim_to_cap_least}
use packet_browser.Client.Cache.Touches.{refetched, lookup-touch_fresh}
use packet_browser.Client.Cache.{
  Row, Cache, Sql, lookup, insert, trim_to_cap, touch_fresh, evict, remove, total, total_or_0,
}
use packet_browser.Prelude.Int.{pos, negsuc}
use packet_browser.Prelude.{
  ℕ, ◌≤◌, Bytes, true, List, [], ◌∷◌, some, ◌≡◌, refl, inl, inr, if◌then◌else◌, ◌&&◌, min, codes,
  arith, All-imp,
}
use packet_browser.Text.Search.{equal}
use mathlib.Core.Option

abbrev pub in_order : Sql
in_order = record {
  ascending = λ rows. rows;
  descending = λ rows. rows;
  begins = true;
  upserts = true;
  sums = true;
  deletes = λ u. true;
  commits = true;
  executes = true;
}

abbrev row_at : Bytes → ℕ → Row
row_at url now = record {
  url = url;
  etag = codes "-";
  brotli_body = 1 ∷ 2 ∷ 3 ∷ [];
  fetched_at = now;
  last_used = now;
  size = 3;
  max_age = 60;
}

abbrev three_rows : List Row
three_rows = row_at (codes "a") 1 ∷ row_at (codes "b") 2 ∷ row_at (codes "c") 3 ∷ []

abbrev small_cache : Cache
small_cache = record { rows = three_rows; cap_bytes = 9; max_ttl = 600 }

Among-self : (rows : List Row) → Among rows rows
Among-self [] = tt
Among-self (r ∷ rows) = (inl refl, All-imp rows (λ x m. inr m) (Among-self rows))

in_order-IsOrdering : (rows : List Row) → IsTable rows → IsOrdering rows (in_order.ascending rows)
in_order-IsOrdering rows h = record {
  sound = Among-self rows;
  distinct = h;
  complete = Among-self rows;
}

in_order-IsSound : IsSound in_order
in_order-IsSound = record { sums = refl; works = λ u. refl; orders = in_order-IsOrdering }

three_rows-IsTable : IsTable three_rows
unfolding equal
three_rows-IsTable = ((refl, (refl, tt)), ((refl, tt), (tt, tt)))

lookup-insert_example :
    let after = insert in_order (codes "d") (codes "-") (7 ∷ 8 ∷ []) (pos 900) 4 small_cache in
    (lookup (codes "d") after ≡ some (fresh_hit (codes "-") (7 ∷ 8 ∷ []) (min 900 600) 4))
    × KeepsOrForgets (lookup (codes "a") small_cache) (lookup (codes "a") after)
unfolding equal
lookup-insert_example =
    lookup-insert in_order (codes "d") (codes "-") (7 ∷ 8 ∷ []) 900 4 small_cache (codes "a") refl
      refl refl refl

abbrev some_operations : List Operation
some_operations =
    insertion (codes "d") (codes "-") (7 ∷ 8 ∷ []) (pos 900) 4
    ∷ fresh_touch (codes "b") 5
    ∷ insertion (codes "e") (codes "-") (7 ∷ 8 ∷ []) (negsuc 0) 6
    ∷ []

run-IsKept_example : IsKept 5 9 (run in_order some_operations small_cache)
unfolding total
run-IsKept_example =
    run-IsKept in_order in_order-IsSound 5 9 some_operations small_cache
      (omega arith, (tt, (omega arith, tt)))
      (record { is_table = three_rows-IsTable; is_bounded = omega arith; same_cap = refl })

first_gone : Mem (row_at (codes "a") 1) (trim_to_cap in_order 6 (codes "c") three_rows) → ⊥
unfolding trim_to_cap evict remove total total_or_0 equal
first_gone (inl e) = cc
first_gone (inr (inl e)) = cc
first_gone (inr (inr h)) = absurd h

second_kept : Mem (row_at (codes "b") 2) (trim_to_cap in_order 6 (codes "c") three_rows)
unfolding trim_to_cap evict remove total total_or_0 equal
second_kept = inl refl

trim_to_cap_least_example : (row_at (codes "a") 1).last_used ≤ (row_at (codes "b") 2).last_used
unfolding equal
trim_to_cap_least_example =
    trim_to_cap_least in_order 6 (codes "c") three_rows (λ u. refl)
      (in_order-IsOrdering three_rows three_rows-IsTable)
      ((omega arith, (omega arith, tt)), ((omega arith, tt), (tt, tt))) (row_at (codes "a") 1)
      (row_at (codes "b") 2) (inl refl) first_gone second_kept refl

lookup-touch_fresh_example : lookup (codes "b") (touch_fresh in_order (codes "b") 9 small_cache) ≡ (
    if in_order.executes && equal (codes "b") (codes "b")
    then Option.map (refetched 9) (lookup (codes "b") small_cache)
    else lookup (codes "b") small_cache)
lookup-touch_fresh_example = lookup-touch_fresh in_order (codes "b") (codes "b") 9 small_cache
