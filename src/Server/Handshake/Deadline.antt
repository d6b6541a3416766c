-- ===== src/Server/Handshake/Deadline.antt =====
-- What the reads of the handshake come to by the deadline, whatever the peer goes on to send.
use packet_browser.Protocol.Request.{newline}
use packet_browser.Server.Reader.{
  max_line_length, Item, byte, wake_up, expiry, broken, Input, IoError, timed_out, line_too_long,
  other, Reading, utf8_line, read_until, read_bounded_line_until,
}
use packet_browser.Server.Handshake.{
  Terms, Awaited, answer_line, closed, failed, is_noise, classify_preauth_line, sort_line,
  await_line,
}
use packet_browser.Prelude.{
  ℕ, zero, suc, ◌+◌, ◌≤◌, ◌<◌, ◌≡◌, refl, ap, ◌∙◌, ◌⊎◌, Bytes, Bool, true, false, List, [], ◌∷◌,
  ◌++◌, Option, none, some, Result, ok, err, leb, ◌==◌, length, arith, Bool-cases, inl, inr,
}

-- Within these items the deadline passes, and later the poll wakes up.
abbrev pub Expires : Bool → List Item → Type 0
Expires late [] = ⊥
Expires late (byte c ∷ items) = Expires late items
Expires late (broken e ∷ items) = Expires late items
Expires late (expiry ∷ items) = Expires true items
Expires true (wake_up ∷ items) = Unit
Expires false (wake_up ∷ items) = Expires false items

abbrev pub at' : Bool → List Item → Input
at' late items = record { late = late; items = items }

-- The deadline has passed, or it will while a line is read.
abbrev pub Due : Bool → List Item → Type 0
Due true items = Unit
Due false items = Expires false items

-- A read that the items decide, whatever comes behind them: no line, or a line within them
pub data Decided (n : ℕ) (g : List Item → Reading (Option Bytes)) : Type 0 where
  no_line : (e : IoError) → ((rest : List Item) → (g rest).0 ≡ err e) → Decided n g
  no_more : ((rest : List Item) → (g rest).0 ≡ ok none) → Decided n g
  line :
      (s : Bytes) (late : Bool) (items : List Item)
      → Due late items
      → length items < n
      → ((rest : List Item) → g rest ≡ (ok (some s), at' late (items ++ rest)))
      → Decided n g

Decided-mono :
    {g : List Item → Reading (Option Bytes)} (m n : ℕ) → m ≤ n → Decided m g → Decided n g
Decided-mono m n h (no_line e f) = no_line e f
Decided-mono m n h (no_more f) = no_more f
Decided-mono m n h (line s late items due short f) =
    line s late items due (omega (arith, h, short)) f

Expires-Due : (late : Bool) (items : List Item) → Expires late items → Due late items
Expires-Due true items h = tt
Expires-Due false items h = h

utf8_line-Decided :
    (r : Result IoError (Option Bytes)) (late : Bool) (items : List Item) (n : ℕ)
    → Due late items
    → length items < n
    → Decided n (λ rest. (r, at' late (items ++ rest)))
utf8_line-Decided (ok (some s)) late items n due h = line s late items due h (λ rest. refl)
utf8_line-Decided (ok none) late items n due h = no_more (λ rest. refl)
utf8_line-Decided (err e) late items n due h = no_line e (λ rest. refl)

read_until-Decided :
    (buf : Bytes) (late fresh : Bool) (items : List Item)
    → Expires late items
    → Decided (length items) (λ rest. read_until buf late fresh (items ++ rest))
unfolding read_until
read_until-Decided buf late fresh [] h = absurd h
read_until-Decided buf late fresh (byte c ∷ items) h = elim (Bool-cases (c == newline)) [
  | inl stop ↦ rw stop (
      utf8_line-Decided (utf8_line (buf ++ c ∷ [])) late items (suc (length items))
        (Expires-Due late items h) (omega arith))
  | inr more ↦ elim (Bool-cases (leb (max_line_length + 1) (suc (length buf)))) [
    | inl full ↦ rw (more, full) (no_line line_too_long (λ rest. refl))
    | inr room ↦
        rw (more, room)
          (Decided-mono (length items) (suc (length items)) (omega arith)
            (read_until-Decided (buf ++ c ∷ []) late true items h))
  ]
]
read_until-Decided buf true fresh (wake_up ∷ items) h = no_line timed_out (λ rest. refl)
read_until-Decided buf false fresh (wake_up ∷ items) h =
    Decided-mono (length items) (suc (length items)) (omega arith)
      (read_until-Decided buf false false items h)
read_until-Decided buf late fresh (expiry ∷ items) h =
    Decided-mono (length items) (suc (length items)) (omega arith)
      (read_until-Decided buf true fresh items h)
read_until-Decided buf late fresh (broken e ∷ items) h = no_line (other e) (λ rest. refl)

pub read_line-Decided :
    (late : Bool) (items : List Item)
    → Due late items
    → Decided (length items) (λ rest. read_bounded_line_until (at' late (items ++ rest)))
unfolding read_bounded_line_until
read_line-Decided true items due = no_line timed_out (λ rest. refl)
read_line-Decided false items due = read_until-Decided [] false false items due

-- A wait that the items decide, on any fuel above `n`
pub data Settled (n : ℕ) (g : ℕ → List Item → Option Awaited) : Type 0 where
  without_line :
      (a : Awaited)
      → ((fuel : ℕ) (rest : List Item) → n < fuel → g fuel rest ≡ some a)
      → Settled n g
  with_line :
      (s : Bytes) (late : Bool) (items : List Item)
      → ((fuel : ℕ) (rest : List Item)
          → n < fuel
          → g fuel rest ≡ some (answer_line s (at' late (items ++ rest))))
      → Settled n g

module _ (terms : Terms) (callsign : Bytes) where
  await_line_of :
      (fuel n : ℕ) (input : Input) {r : Reading (Option Bytes)} {a : Awaited}
      → n < fuel
      → read_bounded_line_until input ≡ r
      → sort_line terms callsign r ≡ some a
      → await_line terms fuel callsign input ≡ some a
  unfolding await_line
  await_line_of zero n input h e s = absurd (omega (arith, h))
  await_line_of (suc fuel) n input h e s = rw (ap (sort_line terms callsign) e ∙ s, await_line) refl

  -- A round that goes on
  await_line_next :
      (fuel n : ℕ) (input next : Input) {s : Bytes} {a : Awaited}
      → suc n < fuel
      → read_bounded_line_until input ≡ (ok (some s), next)
      → sort_line terms callsign (ok (some s), next) ≡ none
      → ((k : ℕ) → n < k → await_line terms k callsign next ≡ some a)
      → await_line terms fuel callsign input ≡ some a
  unfolding await_line
  await_line_next zero n input next h e s g = absurd (omega (arith, h))
  await_line_next (suc fuel) n input next h e s g =
      rw (ap (sort_line terms callsign) e ∙ s, await_line)
        (ap (λ r. await_line terms fuel callsign r.1) e ∙ g fuel (omega (arith, h)))

  sort_line-error :
      (r : Reading (Option Bytes)) (e : IoError)
      → r.0 ≡ err e
      → sort_line terms callsign r ≡ some (failed e)
  unfolding sort_line
  sort_line-error (ok o, input) e h = absurd (cc h)
  sort_line-error (err e', input) e h = cc

  sort_line-none :
      (r : Reading (Option Bytes)) → r.0 ≡ ok none → sort_line terms callsign r ≡ some closed
  unfolding sort_line
  sort_line-none (ok none, input) h = refl
  sort_line-none (ok (some s), input) h = absurd (cc h)
  sort_line-none (err e', input) h = absurd (cc h)

  -- The input behind a line has no part in what the line is.
  sort_line-line :
      (s : Bytes) (late : Bool) (items : List Item)
      → ((rest : List Item)
          → sort_line terms callsign (ok (some s), at' late (items ++ rest)) ≡ none)
        ⊎ ((rest : List Item)
            → sort_line terms callsign (ok (some s), at' late (items ++ rest))
              ≡ some (answer_line s (at' late (items ++ rest))))
  unfolding sort_line
  sort_line-line s late items =
      elim (Bool-cases (is_noise terms (classify_preauth_line terms s callsign))) [
        | inl noise ↦ inl (λ rest. rw noise refl)
        | inr answer ↦ inr (λ rest. rw answer refl)
      ]

  pub await_line-Settled :
      (n : ℕ) (late : Bool) (items : List Item)
      → Due late items
      → length items < n
      → Settled
          (length items)
          (λ fuel rest. await_line terms fuel callsign (at' late (items ++ rest)))
  unfolding await_line
  await_line-Settled zero late items due h = absurd (omega (arith, h))
  await_line-Settled (suc n) late items due h = elim (read_line-Decided late items due) [
    | no_line e f ↦
        without_line (failed e) (λ fuel rest h'.
          await_line_of fuel (length items) _ h' refl (sort_line-error _ e (f rest)))
    | no_more f ↦
        without_line closed
          (λ fuel rest h'. await_line_of fuel (length items) _ h' refl (sort_line-none _ (f rest)))
    | line s late' items' due' short f ↦ elim (sort_line-line s late' items') [
      | inr answer ↦
          with_line s late' items'
            (λ fuel rest h'. await_line_of fuel (length items) _ h' (f rest) (answer rest))
      | inl noise ↦ elim (await_line-Settled n late' items' due' (omega (arith, short, h))) [
        | without_line a g ↦ without_line a (λ fuel rest h'.
            await_line_next fuel (length items') _ _ (omega (arith, short, h')) (f rest)
              (noise rest) (λ k h''. g k rest h''))
        | with_line s' late'' items'' g ↦ with_line s' late'' items'' (λ fuel rest h'.
            await_line_next fuel (length items') _ _ (omega (arith, short, h')) (f rest)
              (noise rest) (λ k h''. g k rest h''))
      ]
    ]
  ]
