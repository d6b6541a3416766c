-- ===== src/Server/Blocklist/Refresh.antt =====
-- `update_blocklist` and `fetch_capped` of server/src/blocklist.rs. The HTTP client is a parameter.
pub mod Update
pub mod Limit
use packet_browser.Prelude.{
  ℕ, ◌+◌, ◌*◌, Bytes, Bool, false, List, [], ◌∷◌, ◌++◌, Option, none, some, Result, ok, err, ltb,
  ◌==◌, if◌then◌else◌, length, ◌>>=◌, ok_or,
}
use packet_browser.Server.Blocklist.HostsFile.{lines, parse_line}
use packet_browser.Server.Blocklist.{DomainBlocklist}
use packet_browser.Text.Utf8.{from_utf8}

abbrev pub max_blocklist_bytes : ℕ
max_blocklist_bytes = 16 * 1024 * 1024

pub data UpdateError : Type 0 where
  announced_too_long too_long invalid_utf8 : UpdateError
  other : Bytes → UpdateError

-- An answer without an error status: its announced length, and what each `read` gives.
pub record Answer : Type 0 where
  pub content_length : Option ℕ
  pub reads : List (Result Bytes Bytes)

-- `Client::builder` ... `build`, and `get` ... `send` with `error_for_status`
pub record HttpClient : Type 0 where
  pub build_error : Option Bytes
  pub get : Bytes → Result Bytes Answer

unfoldable pub is_announced_too_long : Option ℕ → Bool
is_announced_too_long none = false
is_announced_too_long (some len) = ltb max_blocklist_bytes len

-- The loop over `resp.read`; the end of the list is the end of the body.
unfoldable pub read_capped : Bytes → List (Result Bytes Bytes) → Result UpdateError Bytes
read_capped buf [] = ok buf
read_capped buf (err e ∷ reads) = err (other e)
read_capped buf (ok chunk ∷ reads) =
    let rest = read_capped (buf ++ chunk) reads in
    if length chunk == 0
    then ok buf
    else if ltb max_blocklist_bytes (length buf + length chunk)
    then err too_long
    else rest

unfoldable pub read_answer : Result Bytes Answer → Result UpdateError Bytes
unfolding read_capped is_announced_too_long
read_answer (err e) = err (other e)
read_answer (ok resp) =
    if is_announced_too_long resp.content_length
    then err announced_too_long
    else (read_capped [] resp.reads >>= λ buf. ok_or (from_utf8 buf) invalid_utf8)

unfoldable pub fetch_capped : HttpClient → Bytes → Result UpdateError Bytes
unfolding read_answer
fetch_capped client url = read_answer (client.get url)

unfoldable pub add_domain : Option Bytes → List Bytes → List Bytes
add_domain none domains = domains
add_domain (some domain) domains = domain ∷ domains

-- The loop over the lines of a body
unfoldable pub add_lines : List Bytes → List Bytes → List Bytes
unfolding add_domain
add_lines [] domains = domains
add_lines (line ∷ rest) domains = add_lines rest (add_domain (parse_line line) domains)

-- The loop over the URLs
unfoldable pub collect : HttpClient → List Bytes → List Bytes → Result UpdateError (List Bytes)
unfolding add_lines
collect client [] domains = ok domains
collect client (url ∷ urls) domains =
    fetch_capped client url >>= λ body. collect client urls (add_lines (lines body) domains)

unfoldable pub store : List Bytes → DomainBlocklist → DomainBlocklist
store domains none = none
store domains (some old) = some domains

-- The state behind a collection; an error leaves it.
unfoldable pub settle :
    Result UpdateError (List Bytes) → DomainBlocklist → Option UpdateError × DomainBlocklist
unfolding store
settle (err e) state = (some e, state)
settle (ok domains) state = (none, store domains state)

unfoldable pub built : HttpClient → Option Bytes → List Bytes → Result UpdateError (List Bytes)
unfolding collect
built client (some e) urls = err (other e)
built client none urls = collect client urls []

-- The error of an update, if there is one, and the state behind it.
unfoldable pub update_blocklist :
    HttpClient → List Bytes → DomainBlocklist → Option UpdateError × DomainBlocklist
unfolding built settle
update_blocklist client urls state = settle (built client client.build_error urls) state

-- `OnceLock::set`: the first call counts.
unfoldable pub init_domain_blocklist : DomainBlocklist → DomainBlocklist
init_domain_blocklist none = some []
init_domain_blocklist (some domains) = some domains

-- One update at the start and one behind each sleep, each with the answers of its time
unfoldable pub refresh : List Bytes → List HttpClient → DomainBlocklist → DomainBlocklist
refresh urls [] state = state
refresh urls (client ∷ later) state = refresh urls later (update_blocklist client urls state).1

unfoldable pub start_blocklist_manager :
    List Bytes → List HttpClient → DomainBlocklist → DomainBlocklist
unfolding init_domain_blocklist refresh
start_blocklist_manager [] clients state = state
start_blocklist_manager (url ∷ urls) clients state =
    refresh (url ∷ urls) clients (init_domain_blocklist state)
