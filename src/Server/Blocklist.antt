-- ===== src/Server/Blocklist.antt =====
-- server/src/blocklist.rs: the set of blocked domains, and how a hosts file fills it.
pub mod HostsFile
pub mod Refresh
use packet_browser.Prelude.{Bytes, Bool, false, List, Option, none, some, any}
use packet_browser.Text.Ascii.{to_ascii_lowercase}
use packet_browser.Text.Search.{equal}

-- `DOMAIN_BLOCKLIST`: `none` before `init_domain_blocklist`; the set is the list of its members.
abbrev pub DomainBlocklist : Type 0
DomainBlocklist = Option (List Bytes)

abbrev pub contains_domain : Bytes → List Bytes → Bool
contains_domain key domains = any (equal key) domains

unfoldable pub is_domain_blocked : DomainBlocklist → Bytes → Bool
is_domain_blocked none host = false
is_domain_blocked (some domains) host = contains_domain (to_ascii_lowercase host) domains
