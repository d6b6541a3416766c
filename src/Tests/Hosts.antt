-- ===== src/Tests/Hosts.antt =====
-- The refresh of the blocklist of server/src/blocklist.rs at concrete inputs.
use packet_browser.Prelude.{Bytes, [], ◌∷◌, none, some, ok, err, ◌≡◌, refl, codes}
use packet_browser.Server.Blocklist.HostsFile.{parse_line, lines, split_whitespace, entry}
use packet_browser.Server.Blocklist.Refresh.Update.{IsUpdate, update_blocklist-IsUpdate}
use packet_browser.Server.Blocklist.Refresh.{
  HttpClient, update_blocklist, built, collect, fetch_capped, read_answer, read_capped,
  is_announced_too_long, add_lines, add_domain, settle, store, start_blocklist_manager,
  init_domain_blocklist, refresh,
}
use packet_browser.Text.Ascii.{trim, trim_start, trim_end, lower, match_length, white_spaces}
use packet_browser.Text.Search.{equal, starts_with}
use packet_browser.Text.Split.{split}
use packet_browser.Text.Utf8.{from_utf8, is_utf8}

abbrev hosts : Bytes
hosts = codes "# ads\n0.0.0.0 Ads.Net\r\n127.0.0.1 localhost\n\n"

-- One list, which comes in two reads
abbrev lists_client : HttpClient
lists_client = record {
  build_error = none;
  get = λ url.
      ok (record { content_length = none; reads = ok hosts ∷ ok (codes "0.0.0.0 b.org # b") ∷ [] });
}

abbrev broken_client : HttpClient
broken_client = record { build_error = none; get = λ url. err (codes "refused") }

lines_runs :
    lines hosts ≡ codes "# ads" ∷ codes "0.0.0.0 Ads.Net" ∷ codes "127.0.0.1 localhost" ∷ [] ∷ []
unfolding lines split equal
lines_runs = refl

split_whitespace_runs :
    split_whitespace (codes " a  b\tc ") ≡ codes "a" ∷ codes "b" ∷ codes "c" ∷ []
unfolding split_whitespace trim_start starts_with equal white_spaces match_length
split_whitespace_runs = refl

parse_line_runs : parse_line (codes "0.0.0.0 Ads.Net\r") ≡ some (codes "ads.net")
unfolding parse_line split_whitespace trim entry trim_start trim_end starts_with equal white_spaces
    match_length lower
parse_line_runs = refl

updated :
    update_blocklist lists_client (codes "l" ∷ []) (some (codes "old.org" ∷ []))
    ≡ (none, some (codes "b.org" ∷ codes "ads.net" ∷ []))
unfolding update_blocklist built collect fetch_capped read_answer read_capped is_announced_too_long
    add_lines add_domain settle store parse_line split_whitespace trim entry trim_start trim_end
    starts_with equal white_spaces match_length lower from_utf8 is_utf8 lines split
updated = refl

update_blocklist-IsUpdate_example :
    IsUpdate lists_client
      (codes "l" ∷ [])
      (codes "old.org" ∷ [])
      (update_blocklist lists_client (codes "l" ∷ []) (some (codes "old.org" ∷ []))).0
      (update_blocklist lists_client (codes "l" ∷ []) (some (codes "old.org" ∷ []))).1
update_blocklist-IsUpdate_example =
    update_blocklist-IsUpdate lists_client (codes "l" ∷ []) (codes "old.org" ∷ [])

-- A refresh that cannot be read keeps what the start has fetched.
kept :
    start_blocklist_manager (codes "l" ∷ []) (lists_client ∷ broken_client ∷ []) none
    ≡ some (codes "b.org" ∷ codes "ads.net" ∷ [])
unfolding start_blocklist_manager init_domain_blocklist refresh update_blocklist built collect
    fetch_capped read_answer read_capped is_announced_too_long add_lines add_domain settle store
    parse_line split_whitespace trim entry trim_start trim_end starts_with equal white_spaces
    match_length lower from_utf8 is_utf8 lines split
kept = refl
