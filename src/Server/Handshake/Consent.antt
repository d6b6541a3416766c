-- ===== src/Server/Handshake/Consent.antt =====
-- What consent in the handshake means.
use packet_browser.Server.Reader.{Input, Reading, read_bounded_line_until}
use packet_browser.Server.Handshake.{
  Terms, Outcome, agreed, Awaited, answer_line, closed, failed, validate_callsign_with_allowlist,
  await_line, consent, with_callsign, with_first_line, handshake,
}
use packet_browser.Prelude.{
  suc, ◌≡◌, refl, ap, Bytes, Option, none, some, ok, err, length, Bool-cases, inl, inr, codes,
}
use packet_browser.Text.Ascii.{trim}
use packet_browser.Text.Search.{equal, equal_sound}
use mathlib.Core.Path.{subst}

-- How a handshake came to consent: by a first line that is a valid callsign, and by an answer that
-- is the word of consent.
pub record Consented (terms : Terms) (input : Input) (callsign : Bytes) (next : Input)
    : Type 0 where
  pub first : Bytes
  pub behind : Input
  pub last : Bytes
  pub first_is : read_bounded_line_until input ≡ (ok (some first), behind)
  pub valid : validate_callsign_with_allowlist terms (trim first) ≡ some callsign
  pub waited :
      await_line terms (suc (length behind.items)) callsign behind ≡ some (answer_line last next)
  pub word : terms.to_uppercase (trim last) ≡ codes "AGREE"

agreed_is :
    {c d : Bytes} {i j : Input}
    → ◌≡◌ {A = Option Outcome} (some (agreed c i)) (some (agreed d j))
    → (c ≡ d) × (i ≡ j)
agreed_is h = (cc, cc)

module _ (terms : Terms) where
  consent_sound :
      (callsign : Bytes) (a : Option Awaited) {c : Bytes} {next : Input}
      → consent terms callsign a ≡ some (agreed c next)
      → (s : Bytes) × (a ≡ some (answer_line s next))
        × (callsign ≡ c)
        × (terms.to_uppercase (trim s) ≡ codes "AGREE")
  unfolding consent
  consent_sound callsign none h = absurd (cc h)
  consent_sound callsign (some (failed e)) h = absurd (cc h)
  consent_sound callsign (some closed) h = absurd (cc h)
  consent_sound callsign (some (answer_line s input)) {c} {next} h =
      elim (Bool-cases (equal (terms.to_uppercase (trim s)) (codes "AGREE"))) [
        | inr other ↦ absurd (cc (rw other at h))
        | inl word ↦
            let (ec, ei) = agreed_is (rw word at h) in
            (s, ap (λ i. some (answer_line s i)) ei, ec, equal_sound _ _ word)
      ]

  with_callsign_sound :
      (call : Option Bytes) (behind : Input) {c : Bytes} {next : Input}
      → with_callsign terms call behind ≡ some (agreed c next)
      → (s : Bytes) × (call ≡ some c)
        × (await_line terms (suc (length behind.items)) c behind ≡ some (answer_line s next))
        × (terms.to_uppercase (trim s) ≡ codes "AGREE")
  unfolding with_callsign
  with_callsign_sound none behind h = absurd (cc h)
  with_callsign_sound (some callsign) behind {c} {next} h =
      let (s, waited, same, word) =
        consent_sound callsign (await_line terms (suc (length behind.items)) callsign behind) h in
      (
        s,
        ap some same,
        subst
            (λ d. await_line terms (suc (length behind.items)) d behind ≡ some (answer_line s next))
            same waited,
        word,
      )

  with_first_line_sound :
      (input : Input) (r : Reading (Option Bytes)) {c : Bytes} {next : Input}
      → read_bounded_line_until input ≡ r
      → with_first_line terms r ≡ some (agreed c next)
      → Consented terms input c next
  unfolding with_first_line
  with_first_line_sound input (err e, behind) k h = absurd (cc h)
  with_first_line_sound input (ok none, behind) k h = absurd (cc h)
  with_first_line_sound input (ok (some first), behind) k h =
      let (s, valid, waited, word) =
        with_callsign_sound (validate_callsign_with_allowlist terms (trim first)) behind h in
      record {
        first = first;
        behind = behind;
        last = s;
        first_is = k;
        valid = valid;
        waited = waited;
        word = word;
      }

  -- No consent without a valid callsign and the word: if the handshake ends in consent for a
  -- callsign, then the first line, trimmed, is valid and gives that callsign, and the line the
  -- server waited for, trimmed and upper-cased, is AGREE.
  pub handshake_sound :
      (input : Input) {callsign : Bytes} {next : Input}
      → handshake terms input ≡ some (agreed callsign next)
      → Consented terms input callsign next
  unfolding handshake
  handshake_sound input h = with_first_line_sound input (read_bounded_line_until input) refl h
