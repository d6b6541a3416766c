-- ===== src/Server/Blocklist/Refresh/Update.antt =====
-- What is blocked behind an update of the blocklist.
use packet_browser.Prelude.{
  Bytes, Bool, true, false, ◌||◌, List, [], ◌∷◌, Option, none, some, Result, ok, err, any, ◌≡◌,
  refl, sym, ap, ◌∙◌, unchain, All, ◌≤◌, length,
}
use packet_browser.Server.Blocklist.HostsFile.{lines, parse_line}
use packet_browser.Server.Blocklist.HostsFile.Names.{blocks, is_entry, parse_line_lem}
use packet_browser.Server.Blocklist.Refresh.Limit.{ok_inj, IsRead, read_answer_le}
use packet_browser.Server.Blocklist.Refresh.{
  HttpClient, UpdateError, max_blocklist_bytes, fetch_capped, add_domain, add_lines, collect, built,
  settle, store, update_blocklist,
}
use packet_browser.Server.Blocklist.{DomainBlocklist, is_domain_blocked}
use packet_browser.Text.Ascii.{to_ascii_lowercase}
use packet_browser.Text.Search.{equal}

-- A line of the body names the host.
abbrev pub lists : Bytes → Result UpdateError Bytes → Bool
lists host (err e) = false
lists host (ok body) = any (blocks host) (lines body)

||_swap : (a b c : Bool) → (a || (b || c)) ≡ ((b || a) || c)
||_swap true true c = refl
||_swap true false c = refl
||_swap false true c = refl
||_swap false false c = refl

add_domain_lem :
    (key : Bytes) (entry : Option Bytes) (domains : List Bytes)
    → any (equal key) (add_domain entry domains) ≡ (is_entry key entry || any (equal key) domains)
unfolding add_domain
add_domain_lem key none domains = refl
add_domain_lem key (some d) domains = refl

add_lines_lem :
    (host : Bytes) (rest domains : List Bytes)
    → any (equal (to_ascii_lowercase host)) (add_lines rest domains)
      ≡ (any (blocks host) rest || any (equal (to_ascii_lowercase host)) domains)
unfolding add_lines
add_lines_lem host [] domains = refl
add_lines_lem host (line ∷ rest) domains =
    let known = any (equal (to_ascii_lowercase host)) domains in
    add_lines_lem host rest (add_domain (parse_line line) domains)
    ∙ ap (λ x. any (blocks host) rest || x)
        (add_domain_lem (to_ascii_lowercase host) (parse_line line) domains
          ∙ ap (λ x. x || known) (parse_line_lem host line))
    ∙ ||_swap (any (blocks host) rest) (blocks host line) known

||_false : (b : Bool) → (b || false) ≡ b
||_false true = refl
||_false false = refl

module _ (client : HttpClient) where
  fetch_capped_le :
      (url : Bytes) {out : Bytes}
      → fetch_capped client url ≡ ok out
      → length out ≤ max_blocklist_bytes
  unfolding fetch_capped
  fetch_capped_le url h = read_answer_le (client.get url) h

  collect_lem :
      (host : Bytes) (urls domains : List Bytes) {out : List Bytes}
      → collect client urls domains ≡ ok out
      → any (equal (to_ascii_lowercase host)) out ≡ (
          any (λ url. lists host (fetch_capped client url)) urls
          || any (equal (to_ascii_lowercase host)) domains)
  unfolding collect
  collect_lem host [] domains h = ap (any (equal (to_ascii_lowercase host))) (ok_inj (sym h))
  collect_lem host (url ∷ urls) domains h =
      let c = unchain (fetch_capped client url) _ h in
      let known = any (equal (to_ascii_lowercase host)) domains in
      let others = any (λ u. lists host (fetch_capped client u)) urls in
      collect_lem host urls (add_lines (lines c.value) domains) c.then_is
      ∙ ap (λ x. others || x) (add_lines_lem host (lines c.value) domains)
      ∙ ||_swap others (lists host (ok c.value)) known
      ∙ ap (λ x. (lists host x || others) || known) (sym c.first_is)

  collect-AllRead :
      (urls domains : List Bytes) {out : List Bytes}
      → collect client urls domains ≡ ok out
      → All (λ url. IsRead (fetch_capped client url)) urls
  unfolding collect
  collect-AllRead [] domains h = tt
  collect-AllRead (url ∷ urls) domains h =
      let c = unchain (fetch_capped client url) _ h in
      (
        (c.value, c.first_is, fetch_capped_le url c.first_is),
        collect-AllRead urls (add_lines (lines c.value) domains) c.then_is,
      )

  -- How an update ends: with an error, and the blocklist as it was; or with a body within the limit
  -- read from each URL, and the hosts blocked, in any case, that a line of one of them names, and
  -- no others.
  abbrev pub IsUpdate : List Bytes → List Bytes → Option UpdateError → DomainBlocklist → Type 0
  IsUpdate urls old (some e) state = state ≡ some old
  IsUpdate urls old none state =
      All (λ url. IsRead (fetch_capped client url)) urls
      × ((host : Bytes)
          → is_domain_blocked state host ≡ any (λ url. lists host (fetch_capped client url)) urls)

  settle-IsUpdate :
      (urls old : List Bytes) (r : Result UpdateError (List Bytes))
      → (o : Option Bytes) → built client o urls ≡ r
      → IsUpdate urls old (settle r (some old)).0 (settle r (some old)).1
  unfolding settle store built is_domain_blocked
  settle-IsUpdate urls old (err e) o h = refl
  settle-IsUpdate urls old (ok out) (some e) h = absurd (cc h)
  settle-IsUpdate urls old (ok out) none h = (
    collect-AllRead urls [] h,
    λ host.
        collect_lem host urls [] h
        ∙ ||_false (any (λ url. lists host (fetch_capped client url)) urls),
  )

  -- An update of the blocklist ends with an error, and the list as it was; or with a body of at most
  -- 16 MiB read from each URL, and the list blocks a host exactly if a line of one of the bodies that
  -- is no comment has it as its second word, in upper or lower case, where that word has at most 253
  -- bytes and is, as it is spelled, neither localhost, localhost.localdomain nor broadcasthost.
  pub update_blocklist-IsUpdate :
      (urls old : List Bytes)
      → IsUpdate urls old
          (update_blocklist client urls (some old)).0
          (update_blocklist client urls (some old)).1
  unfolding update_blocklist
  update_blocklist-IsUpdate urls old =
      settle-IsUpdate urls old (built client client.build_error urls) client.build_error refl
