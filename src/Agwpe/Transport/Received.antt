-- ===== src/Agwpe/Transport/Received.antt =====
-- What a session hears by `recv`, frame by frame, against a description apart from the code.
use packet_browser.Agwpe.Frame.RoundTrip.{IsWireFrame}
use packet_browser.Agwpe.Frame.{encode, is_session_dead_payload}
use packet_browser.Agwpe.Stream.Reassembly.{IsNonempty, read_frame_lem}
use packet_browser.Agwpe.Transport.Events.{at_input, read_lem}
use packet_browser.Agwpe.Transport.{
  Link, TransportError, TransportEvent, data_event, disconnected_event, event_of, deliver, recv,
}
use packet_browser.Agwpe.Types.{
  AgwpeFrame, FrameType, connect, disconnect, send_data, connection_rejected,
}
use packet_browser.Prelude.{
  ℕ, zero, suc, ◌≡◌, ◌≢◌, refl, ap, ◌∙◌, ◌⊎◌, inl, inr, Bytes, true, false, List, [], ◌∷◌, ◌++◌,
  append_assoc, Result, ok, All, length, concat, map, codes, drop, arith, Bool-cases,
}
use packet_browser.Text.Contains.{contains-append_text}
use packet_browser.Text.Search.{contains, starts_with, starts_with_sound, starts_with-append}

-- A text stands somewhere in `s`.
pub record Holds (text s : Bytes) : Type 0 where
  pub before : Bytes
  pub after : Bytes
  pub splits : s ≡ before ++ (text ++ after)

-- One of the two tear-down texts of the nodes
abbrev pub IsTornDown : Bytes → Type 0
IsTornDown s = Holds (codes "*** DISCONNECTED") s ⊎ Holds (codes "Returned to Node") s

contains-Holds : (s text : Bytes) → contains s text ≡ true → Holds text s
unfolding contains
contains-Holds [] text h = cc
contains-Holds (c ∷ s) text h = elim (Bool-cases (starts_with (c ∷ s) text)) [
  | inl hit ↦ record {
    before = [];
    after = drop (length text) (c ∷ s);
    splits = starts_with_sound (c ∷ s) text hit;
  }
  | inr miss ↦
      let later = contains-Holds s text (rw miss at h) in
      record { before = c ∷ later.before; after = later.after; splits = ap (◌∷◌ c) later.splits }
]

Holds-contains : (c : ℕ) (text s : Bytes) → Holds (c ∷ text) s → contains s (c ∷ text) ≡ true
Holds-contains c text s h =
    ap (λ x. contains x (c ∷ text)) h.splits
    ∙ contains-append_text h.before (c ∷ (text ++ h.after)) (c ∷ text) (omega arith)
        (starts_with-append (c ∷ text) h.after)

is_session_dead_payload_sound : (s : Bytes) → is_session_dead_payload s ≡ true → IsTornDown s
unfolding is_session_dead_payload
is_session_dead_payload_sound s h = elim (Bool-cases (contains s (codes "*** DISCONNECTED"))) [
  | inl hit ↦ inl (contains-Holds s _ hit)
  | inr miss ↦ inr (contains-Holds s _ (rw miss at h))
]

is_session_dead_payload_complete :
    (s : Bytes) → is_session_dead_payload s ≡ false → IsTornDown s → ⊥
unfolding is_session_dead_payload
is_session_dead_payload_complete s h (inl text) = let e = rw (Holds-contains _ _ s text) at h in cc
is_session_dead_payload_complete s h (inr text) =
    elim (Bool-cases (contains s (codes "*** DISCONNECTED"))) [
      | inl hit ↦ let e = rw hit at h in cc
      | inr miss ↦ let e = rw (miss, Holds-contains _ _ s text) at h in cc
    ]

module _ (lossy : Bytes → Bytes) where
  -- What a frame tells the session: its data; the end of the session, by the peer's disconnect, by
  -- a tear-down text in the data, or by a rejection; or nothing.
  pub data Tells (f : AgwpeFrame) : TransportEvent → Type 0 where
    spoken : f.frame_type ≡ send_data → (IsTornDown f.payload → ⊥) → Tells f (data_event f.payload)
    torn_down :
        f.frame_type ≡ send_data
        → IsTornDown f.payload
        → Tells f (disconnected_event (lossy f.payload))
    left : f.frame_type ≡ disconnect → Tells f (disconnected_event (lossy f.payload))
    rejected :
        f.frame_type ≡ connection_rejected
        → Tells f (disconnected_event (codes "connection rejected by peer: " ++ lossy f.payload))
    echoed : f.frame_type ≡ connect → Tells f (data_event f.payload)
    nothing :
        f.frame_type ≢ send_data
        → f.frame_type ≢ disconnect
        → f.frame_type ≢ connection_rejected
        → f.frame_type ≢ connect
        → Tells f (data_event [])

  data-Tells : (f : AgwpeFrame) → f.frame_type ≡ send_data → Tells f (event_of lossy f)
  unfolding event_of
  data-Tells f e = rw e (elim (Bool-cases (is_session_dead_payload f.payload)) [
    | inl dead ↦ rw dead (torn_down refl (is_session_dead_payload_sound f.payload dead))
    | inr alive ↦ rw alive (spoken refl (is_session_dead_payload_complete f.payload alive))
  ])

  event_of-Tells : (f : AgwpeFrame) (t : FrameType) → f.frame_type ≡ t → Tells f (event_of lossy f)
  unfolding event_of
  event_of-Tells f send_data e = data-Tells f e
  event_of-Tells f disconnect e = rw e (left refl)
  event_of-Tells f connection_rejected e = rw e (rejected refl)
  event_of-Tells f connect e = rw e (echoed refl)
  event_of-Tells f FrameType.connected e = rw e (nothing (λ h. cc) (λ h. cc) (λ h. cc) (λ h. cc))
  event_of-Tells f FrameType.register_callsign e =
      rw e (nothing (λ h. cc) (λ h. cc) (λ h. cc) (λ h. cc))
  event_of-Tells f FrameType.registration_response e =
      rw e (nothing (λ h. cc) (λ h. cc) (λ h. cc) (λ h. cc))
  event_of-Tells f FrameType.query_ports e = rw e (nothing (λ h. cc) (λ h. cc) (λ h. cc) (λ h. cc))
  event_of-Tells f FrameType.port_info e = rw e (nothing (λ h. cc) (λ h. cc) (λ h. cc) (λ h. cc))

  -- Each frame told its event.
  abbrev pub Told : List AgwpeFrame → List TransportEvent → Type 0
  Told [] [] = Unit
  Told (f ∷ fs) (event ∷ events) = Tells f event × Told fs events
  Told _ _ = ⊥

  -- Calls of `recv` one after the other, each with time left
  unfoldable pub recvs : ℕ → Link → List (Result TransportError TransportEvent) × Link
  recvs zero link = ([], link)
  recvs (suc n) link =
      let now = recv lossy false link in let later = recvs n now.1 in (now.0 ∷ later.0, later.1)

  recv_lem :
      (link : Link) (f : AgwpeFrame) (buf : Bytes) (parts : List Bytes) (rest : Bytes)
      → IsWireFrame f
      → All IsNonempty parts
      → buf ++ concat parts ≡ encode f ++ rest
      → (buf' : Bytes) × (parts' : List Bytes) × (recv lossy false (at_input link buf parts)
          ≡ (ok (event_of lossy f), at_input link buf' parts'))
        × (buf' ++ concat parts' ≡ rest)
        × All IsNonempty parts'
  unfolding recv deliver
  recv_lem link f buf parts rest w full e =
      let t = read_frame_lem f buf parts rest w full e in
      (
        t.left,
        t.later,
        ap (deliver lossy (at_input link buf parts)) (read_lem link f buf parts t),
        t.rest_is,
        t.later_nonempty,
      )

  -- Frames that were sent one after the other are told to the session by as many calls of `recv`,
  -- if each has time left: each frame by its own event, in order, wherever the deliveries begin and
  -- end; what comes behind the frames is left.
  pub recvs-Told :
      (link : Link) (frames : List AgwpeFrame) (buf : Bytes) (parts : List Bytes) (rest : Bytes)
      → All IsWireFrame frames
      → All IsNonempty parts
      → buf ++ concat parts ≡ concat (map encode frames) ++ rest
      → (events : List TransportEvent) × (buf' : Bytes) × (parts' : List Bytes) × (recvs
            (length frames)
            (at_input link buf parts)
          ≡ (map ok events, at_input link buf' parts'))
        × Told frames events
        × (buf' ++ concat parts' ≡ rest)
  unfolding recvs
  recvs-Told link [] buf parts rest w full e = ([], buf, parts, refl, tt, e)
  recvs-Told link (f ∷ fs) buf parts rest (wf, ws) full e =
      let (buf₁, parts₁, now, e₁, full₁) =
        recv_lem link f buf parts (concat (map encode fs) ++ rest) wf full
          (e ∙ append_assoc (encode f) (concat (map encode fs)) rest) in
      let (events, buf', parts', later, told, e') =
        recvs-Told link fs buf₁ parts₁ rest ws full₁ e₁ in
      (
        event_of lossy f ∷ events,
        buf',
        parts',
        rw now (rw later refl),
        (event_of-Tells f f.frame_type refl, told),
        e',
      )
