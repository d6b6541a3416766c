-- ===== src/Server/Blocklist/HostsFile/Names.antt =====
-- Which host a line of a hosts file names, apart from the code, and that `parse_line` finds it.
use packet_browser.Prelude.{
  Bytes, Bool, true, false, ◌||◌, List, [], ◌∷◌, ◌&&◌, not, leb, if◌then◌else◌, le→leb, codes,
  Option, none, some, any, ◌≡◌, refl, sym, ap, Bool-cases, ltb→le, length, ltb, arith, inl, inr,
}
use packet_browser.Server.Blocklist.HostsFile.{parse_line, entry, split_whitespace}
use packet_browser.Text.Ascii.{to_ascii_lowercase, eq_ignore_ascii_case, trim}
use packet_browser.Text.Search.{equal, starts_with, equal_sound}

-- The names that a list may not block
abbrev local_names : List Bytes
local_names = codes "localhost" ∷ codes "localhost.localdomain" ∷ codes "broadcasthost" ∷ []

-- The words of a line name a host: the second of them is its domain, in any case, of at most 253
-- bytes, and none of the local names.
abbrev pub names_host : Bytes → List Bytes → Bool
names_host host [] = false
names_host host (ip ∷ []) = false
names_host host (ip ∷ domain ∷ rest) =
    leb (length domain) 253
    && not (any (equal domain) local_names)
    && eq_ignore_ascii_case host domain

-- A line names a host: it is no comment, and its words do.
abbrev pub blocks : Bytes → Bytes → Bool
blocks host raw =
    not (starts_with (trim raw) (codes "#")) && names_host host (split_whitespace (trim raw))

abbrev pub is_entry : Bytes → Option Bytes → Bool
is_entry key none = false
is_entry key (some domain) = equal key domain

entry_lem :
    (host : Bytes) (ws : List Bytes)
    → is_entry (to_ascii_lowercase host) (entry ws) ≡ names_host host ws
unfolding entry eq_ignore_ascii_case
entry_lem host [] = refl
entry_lem host (ip ∷ []) = refl
entry_lem host (ip ∷ domain ∷ rest) = elim (Bool-cases (ltb 253 (length domain))) [
  | inl long ↦ rw (long, over long) refl
  | inr short ↦ elim (Bool-cases (any (equal domain) local_names)) [
    | inl here ↦ rw (short, here, le→leb _ _ (ltb→le _ _ short)) refl
    | inr away ↦ rw (short, away, le→leb _ _ (ltb→le _ _ short)) refl
  ]
]
  where
    over : ltb 253 (length domain) ≡ true → leb (length domain) 253 ≡ false
    over h = ground arith

||_true : (b : Bool) → (b || true) ≡ true
||_true true = refl
||_true false = refl

pub parse_line_lem :
    (host raw : Bytes) → is_entry (to_ascii_lowercase host) (parse_line raw) ≡ blocks host raw
unfolding parse_line split_whitespace
parse_line_lem host raw = elim (Bool-cases (starts_with (trim raw) (codes "#"))) [
  | inl comment ↦ rw comment (
      ap
        (λ x.
          is_entry (to_ascii_lowercase host)
            (if x then none else entry (split_whitespace (trim raw))))
        (||_true (equal (trim raw) [])))
  | inr text ↦ elim (Bool-cases (equal (trim raw) [])) [
    | inl empty ↦
        rw (text, empty)
          (ap (λ t. names_host host (split_whitespace t)) (sym (equal_sound (trim raw) [] empty)))
    | inr full ↦ rw (text, full) (entry_lem host (split_whitespace (trim raw)))
  ]
]
