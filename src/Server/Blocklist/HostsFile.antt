-- ===== src/Server/Blocklist/HostsFile.antt =====
-- The lines of a hosts file, as `update_blocklist` of server/src/blocklist.rs reads them, and what
-- it uses of `str`: `lines` and `split_whitespace`.
pub mod Names
use packet_browser.Prelude.{
  ℕ, zero, suc, Bytes, ◌||◌, List, [], ◌∷◌, Option, none, some, any, ltb, ◌==◌, if◌then◌else◌,
  length, codes, drop,
}
use packet_browser.Text.Ascii.{to_ascii_lowercase, trim, trim_start, match_length, white_spaces}
use packet_browser.Text.Search.{equal, starts_with}
use packet_browser.Text.Split.{split}

abbrev pub max_domain_len : ℕ
max_domain_len = 253

strip_cr : Bytes → Bytes
strip_cr [] = []
strip_cr (c ∷ []) = if c == 13 then [] else c ∷ []
strip_cr (c ∷ d ∷ s) = c ∷ strip_cr (d ∷ s)

-- The parts between newlines: the last of them counts if it is not empty.
lines_of : List Bytes → List Bytes
unfolding strip_cr
lines_of [] = []
lines_of (p ∷ []) = if equal p [] then [] else p ∷ []
lines_of (p ∷ q ∷ ps) = strip_cr p ∷ lines_of (q ∷ ps)

-- `str::lines`
unfoldable pub lines : Bytes → List Bytes
unfolding lines_of
lines body = lines_of (split b'\n' body)

-- Up to the first white space, and from there on
take_word : Bytes → Bytes
take_word [] = []
take_word (c ∷ s) =
    let rest = take_word s in if match_length white_spaces (c ∷ s) == 0 then c ∷ rest else []

-- One word for each step of the fuel
words : ℕ → Bytes → List Bytes
unfolding take_word
words zero s = []
words (suc fuel) s =
    let t = trim_start s in
    let word = take_word t in
    let rest = words fuel (drop (length word) t) in if equal t [] then [] else word ∷ rest

-- `split_whitespace`: there are no more words than bytes
unfoldable pub split_whitespace : Bytes → List Bytes
unfolding words
split_whitespace s = words (length s) s

abbrev pub local_entries : List Bytes
local_entries = codes "localhost" ∷ codes "localhost.localdomain" ∷ codes "broadcasthost" ∷ []

-- The domain that a line of words blocks
unfoldable pub entry : List Bytes → Option Bytes
entry [] = none
entry (ip ∷ []) = none
entry (ip ∷ domain ∷ rest) =
    if ltb max_domain_len (length domain)
    then none
    else if any (equal domain) local_entries
    then none
    else some (to_ascii_lowercase domain)

unfoldable pub parse_line : Bytes → Option Bytes
unfolding entry
parse_line raw =
    let line = trim raw in
    if equal line [] || starts_with line (codes "#") then none else entry (split_whitespace line)
