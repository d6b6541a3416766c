-- ===== src/Server/Blocklist/Refresh/Limit.antt =====
-- A body that was read is within the limit.
use packet_browser.Prelude.{
  Bytes, List, [], ◌∷◌, none, some, Result, ok, err, ◌≡◌, sym, Bool-cases, Option-cases, unchain,
  ◌>>=◌, ok_or, ltb→le, length-append, ◌≤◌, ◌+◌, ◌++◌, length, ltb, ◌==◌, arith, inl, inr,
}
use packet_browser.Server.Blocklist.Refresh.{
  Answer, UpdateError, announced_too_long, too_long, invalid_utf8, max_blocklist_bytes,
  is_announced_too_long, read_capped, read_answer,
}
use packet_browser.Text.Utf8.{from_utf8, is_utf8}

pub ok_inj : {A : Type 0} {a b : A} → ◌≡◌ {A = Result UpdateError A} (ok a) (ok b) → a ≡ b
ok_inj e = cc

ok_le :
    {a b : Bytes}
    → ◌≡◌ {A = Result UpdateError Bytes} (ok a) (ok b)
    → length a ≤ max_blocklist_bytes
    → length b ≤ max_blocklist_bytes
ok_le e l = mathlib.Core.Path.subst (λ x. length x ≤ max_blocklist_bytes) (ok_inj e) l

-- A body within the limit
abbrev pub IsRead : Result UpdateError Bytes → Type 0
IsRead r = (body : Bytes) × (r ≡ ok body) × (length body ≤ max_blocklist_bytes)

from_utf8_same : (s : Bytes) {t : Bytes} → from_utf8 s ≡ some t → t ≡ s
unfolding from_utf8
from_utf8_same s {t} h = elim (Bool-cases (is_utf8 s)) [
  | inl yes' ↦
      mathlib.Core.Option.some-injective _ _ (let e : some s ≡ some t = rw yes' at h in sym e)
  | inr no' ↦ absurd (let e : none ≡ some t = rw no' at h in cc)
]

read_capped_le :
    (buf : Bytes) (reads : List (Result Bytes Bytes)) {out : Bytes}
    → length buf ≤ max_blocklist_bytes
    → read_capped buf reads ≡ ok out
    → length out ≤ max_blocklist_bytes
unfolding read_capped
read_capped_le buf [] l h = ok_le h l
read_capped_le buf (err e ∷ reads) l h = absurd (cc h)
read_capped_le buf (ok chunk ∷ reads) {out} l h = elim (Bool-cases (length chunk == 0)) [
  | inl end' ↦ ok_le (let e : ok buf ≡ ok out = rw end' at h in e) l
  | inr more ↦ elim (Bool-cases (ltb max_blocklist_bytes (length buf + length chunk))) [
    | inl over ↦ absurd (let e : err too_long ≡ ok out = rw (more, over) at h in cc)
    | inr within' ↦
        read_capped_le (buf ++ chunk) reads
          (mathlib.Core.Path.subst (λ x. x ≤ max_blocklist_bytes) (sym (length-append buf chunk))
            (ltb→le _ _ within'))
          (let e : read_capped (buf ++ chunk) reads ≡ ok out = rw (more, within') at h in e)
  ]
]

pub read_answer_le :
    (r : Result Bytes Answer) {out : Bytes}
    → read_answer r ≡ ok out
    → length out ≤ max_blocklist_bytes
unfolding read_answer
read_answer_le (err e) h = absurd (cc h)
read_answer_le (ok resp) {out} h = elim (Bool-cases (is_announced_too_long resp.content_length)) [
  | inl over ↦ absurd (let e : err announced_too_long ≡ ok out = rw over at h in cc)
  | inr within' ↦
      let e : (read_capped [] resp.reads >>= λ buf. ok_or (from_utf8 buf) invalid_utf8) ≡ ok out =
        rw within' at h in
      let c = unchain (read_capped [] resp.reads) _ e in
      ok_text c.value c.then_is (read_capped_le [] resp.reads (omega arith) c.first_is)
]
  where
    ok_text :
        (s : Bytes) {t : Bytes}
        → ok_or (from_utf8 s) invalid_utf8 ≡ ok t
        → length s ≤ max_blocklist_bytes
        → length t ≤ max_blocklist_bytes
    ok_text s {t} h l = elim (Option-cases (from_utf8 s)) [
      | inl none' ↦ absurd (let e : err invalid_utf8 ≡ ok t = rw none' at h in cc)
      | inr (u, e) ↦
          let k : ok u ≡ ok t = rw e at h in
          ok_le k (
            mathlib.Core.Path.subst (λ x. length x ≤ max_blocklist_bytes) (sym (from_utf8_same s e))
              l)
    ]
