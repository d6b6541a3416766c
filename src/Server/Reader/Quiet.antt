-- ===== src/Server/Reader/Quiet.antt =====
-- Reads from a socket that is slow but sound: wake-ups may stand anywhere, and neither the deadline
-- nor an error comes.
use packet_browser.Protocol.Request.{newline}
use packet_browser.Server.Reader.{
  max_line_length, Item, byte, wake_up, expiry, broken, Reading, utf8_line, at_eof, read_until,
  read_exact_from,
}
use packet_browser.Prelude.{
  ℕ, zero, suc, ◌+◌, ◌≤◌, ◌≡◌, refl, sym, ap, Bytes, Bool, true, false, List, [], ◌∷◌, ◌++◌, none,
  some, ok, leb, ◌==◌, length, All, Lacks, arith, append_assoc, append-nil, length-append,
}
use packet_browser.Text.Utf8.{is_utf8, from_utf8-some}
use mathlib.Core.Path.{subst}

-- The bytes that come before the stream ends or is disturbed.
abbrev pub bytes_of : List Item → Bytes
bytes_of [] = []
bytes_of (byte c ∷ items) = c ∷ bytes_of items
bytes_of (wake_up ∷ items) = bytes_of items
bytes_of (expiry ∷ items) = []
bytes_of (broken e ∷ items) = []

abbrev pub IsQuietItem : Item → Type 0
IsQuietItem (byte c) = Unit
IsQuietItem wake_up = Unit
IsQuietItem expiry = ⊥
IsQuietItem (broken e) = ⊥

abbrev pub IsQuiet : List Item → Type 0
IsQuiet = All IsQuietItem

-- A read that went well and left a quiet stream that still has `rest` to give.
pub record Reads {A : Type 0} (reading : Reading A) (a : A) (rest : Bytes) : Type 0 where
  pub left : List Item
  pub reading_is : reading ≡ (ok a, record { late = false; items = left })
  pub quiet : IsQuiet left
  pub rest_is : bytes_of left ≡ rest

head_of : {a b : ℕ} {s t : Bytes} → ◌≡◌ {A = Bytes} (a ∷ s) (b ∷ t) → (a ≡ b) × (s ≡ t)
head_of h = (cc, cc)

utf8_line-some : (s : Bytes) → is_utf8 s ≡ true → utf8_line s ≡ ok (some s)
unfolding utf8_line
utf8_line-some s h = rw (from_utf8-some s h, utf8_line) refl

pub read_until_quiet :
    (items : List Item) (buf line rest : Bytes) (fresh : Bool)
    → IsQuiet items
    → bytes_of items ≡ line ++ newline ∷ rest
    → Lacks newline line
    → length buf + length line ≤ max_line_length
    → is_utf8 (buf ++ (line ++ newline ∷ [])) ≡ true
    → Reads (read_until buf false fresh items) (some (buf ++ (line ++ newline ∷ []))) rest
unfolding read_until
read_until_quiet [] buf [] rest fresh q e lacks fits u = absurd (cc e)
read_until_quiet [] buf (d ∷ line) rest fresh q e lacks fits u = absurd (cc e)
read_until_quiet (byte c ∷ items) buf [] rest fresh q e lacks fits u =
    let (same, more) = head_of e in
    let s = utf8_line-some (buf ++ newline ∷ []) u in
    subst
      (λ c'. Reads (read_until buf false fresh (byte c' ∷ items)) (some (buf ++ newline ∷ [])) rest)
      (sym same) (record { left = items; reading_is = rw s refl; quiet = q.1; rest_is = more })
read_until_quiet (byte c ∷ items) buf (d ∷ line) rest fresh q e lacks fits u =
    let (same, more) = head_of e in
    let next =
      read_until_quiet items (buf ++ d ∷ []) line rest true q.1 more lacks.1
        (omega (arith, length-append buf (d ∷ []), fits))
        (subst (λ s. is_utf8 s ≡ true) (sym (append_assoc buf (d ∷ []) (line ++ newline ∷ [])))
          u) in
    let plain : (d == newline) ≡ false = ground (arith, lacks.0) in
    let room : leb (max_line_length + 1) (suc (length buf)) ≡ false = ground (arith, fits) in
    subst
      (λ c'.
        Reads (read_until buf false fresh (byte c' ∷ items))
          (some (buf ++ ((d ∷ line) ++ newline ∷ []))) rest)
      (sym same)
      (rw plain (
        rw room (
          subst (λ s. Reads (read_until (buf ++ d ∷ []) false true items) (some s) rest)
            (append_assoc buf (d ∷ []) (line ++ newline ∷ [])) next)))
read_until_quiet (wake_up ∷ items) buf line rest fresh q e lacks fits u =
    read_until_quiet items buf line rest false q.1 e lacks fits u
read_until_quiet (expiry ∷ items) buf line rest fresh q e lacks fits u = absurd q.0
read_until_quiet (broken w ∷ items) buf line rest fresh q e lacks fits u = absurd q.0

-- No byte more: the end of the stream, not in the middle of a line.
pub read_until_eof :
    (items : List Item)
    → IsQuiet items
    → bytes_of items ≡ []
    → read_until [] false false items ≡ (ok none, record { late = false; items = [] })
unfolding read_until at_eof
read_until_eof [] q e = refl
read_until_eof (byte c ∷ items) q e = absurd (cc e)
read_until_eof (wake_up ∷ items) q e = read_until_eof items q.1 e
read_until_eof (expiry ∷ items) q e = absurd q.0
read_until_eof (broken w ∷ items) q e = absurd q.0

pub read_exact_quiet :
    (items : List Item) (buf body rest : Bytes) (n : ℕ)
    → IsQuiet items
    → bytes_of items ≡ body ++ rest
    → length body ≡ n
    → Reads (read_exact_from buf n false items) (buf ++ body) rest
unfolding read_exact_from
read_exact_quiet items buf [] rest zero q e size = record {
  left = items;
  reading_is = ap (λ s. (ok s, record { late = false; items = items })) (sym (append-nil buf));
  quiet = q;
  rest_is = e;
}
read_exact_quiet items buf [] rest (suc n) q e size = absurd (omega (arith, size))
read_exact_quiet items buf (d ∷ body) rest zero q e size = absurd (omega (arith, size))
read_exact_quiet [] buf (d ∷ body) rest (suc n) q e size = absurd (cc e)
read_exact_quiet (byte c ∷ items) buf (d ∷ body) rest (suc n) q e size =
    let (same, more) = head_of e in
    let next = read_exact_quiet items (buf ++ d ∷ []) body rest n q.1 more (omega (arith, size)) in
    subst (λ c'. Reads (read_exact_from (buf ++ c' ∷ []) n false items) (buf ++ d ∷ body) rest)
      (sym same)
      (subst (λ s. Reads (read_exact_from (buf ++ d ∷ []) n false items) s rest)
        (append_assoc buf (d ∷ []) body) next)
read_exact_quiet (wake_up ∷ items) buf (d ∷ body) rest (suc n) q e size =
    read_exact_quiet items buf (d ∷ body) rest (suc n) q.1 e size
read_exact_quiet (expiry ∷ items) buf (d ∷ body) rest (suc n) q e size = absurd q.0
read_exact_quiet (broken w ∷ items) buf (d ∷ body) rest (suc n) q e size = absurd q.0
