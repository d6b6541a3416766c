-- ===== src/Agwpe/Transport/Chunks.antt =====
-- What `send` puts on the wire is what it was given, cut into frames.
use packet_browser.Agwpe.Frame.RoundTrip.{IsCallsign, IsWireFrame}
use packet_browser.Agwpe.Frame.{new, encode}
use packet_browser.Agwpe.Stream.Reassembly.{read_frames, read_frames-encode, IsNonempty}
use packet_browser.Agwpe.Stream.{chunk}
use packet_browser.Agwpe.Transport.{
  Link, chunks, data_frames, send, write, write_unless, TransportError,
}
use packet_browser.Agwpe.Types.{AgwpeFrame, send_data}
use packet_browser.Prelude.{
  ℕ, zero, suc, ◌≤◌, ◌≡◌, refl, ap, ◌∙◌, Bytes, true, List, [], ◌∷◌, ◌++◌, none, some, ok, err,
  if◌then◌else◌, arith, All, length, take, drop, concat, map, length-drop, take-append-drop,
}

abbrev IsChunk : Bytes → Type 0
IsChunk s = length s ≤ 256

length-take : (n : ℕ) (s : Bytes) → length (take n s) ≤ n
length-take zero s = omega arith
length-take (suc n) [] = omega arith
length-take (suc n) (c ∷ s) = omega (arith, length-take n s)

chunks-IsChunk : (fuel : ℕ) (s : Bytes) → All IsChunk (chunks fuel s)
unfolding chunks
chunks-IsChunk zero s = tt
chunks-IsChunk (suc fuel) [] = tt
chunks-IsChunk (suc fuel) (c ∷ s) =
    (length-take 256 (c ∷ s), chunks-IsChunk fuel (drop 256 (c ∷ s)))

concat-chunks : (fuel : ℕ) (s : Bytes) → length s ≤ fuel → concat (chunks fuel s) ≡ s
unfolding chunks
concat-chunks zero [] h = refl
concat-chunks zero (c ∷ s) h = absurd (omega (arith, h))
concat-chunks (suc fuel) [] h = refl
concat-chunks (suc fuel) (c ∷ s) h =
    ap (λ t. take 256 (c ∷ s) ++ t)
      (concat-chunks fuel (drop 256 (c ∷ s)) (omega (arith, length-drop 256 (c ∷ s), h)))
    ∙ take-append-drop 256 (c ∷ s)

abbrev pub payload_of : AgwpeFrame → Bytes
payload_of f = f.payload

module _ (link : Link) (from_ok : IsCallsign link.local_callsign)
    (to_ok : IsCallsign link.remote_callsign) where
  frames-IsWireFrame :
      (parts : List Bytes)
      → All IsChunk parts
      → All IsWireFrame
          (map (new link.port send_data link.local_callsign link.remote_callsign) parts)
  unfolding new
  frames-IsWireFrame [] h = tt
  frames-IsWireFrame (s ∷ parts) h = (
    record {
      from_ok = from_ok;
      to_ok = to_ok;
      no_pid = refl;
      exact = omega (arith, h.0);
      fits = omega (arith, h.0);
      user_data_fits = omega arith;
    },
    frames-IsWireFrame parts h.1,
  )

  payloads-frames :
      (parts : List Bytes)
      → map payload_of
          (map (new link.port send_data link.local_callsign link.remote_callsign) parts)
        ≡ parts
  unfolding new
  payloads-frames [] = refl
  payloads-frames (s ∷ parts) = ap (λ t. s ∷ t) (payloads-frames parts)

  send_lem :
      (payload : Bytes)
      → link.has_stream ≡ true
      → link.write_error ≡ none
      → send payload link ≡ (
        ok tt,
        record link { written = link.written ++ concat (map encode (data_frames link payload)) },
      )
  unfolding send write write_unless
  send_lem payload stream writes =
      let bytes = concat (map encode (data_frames link payload)) in
      ap (λ b. if b then write bytes link else (err TransportError.not_connected, link)) stream
      ∙ ap (λ o. write_unless o bytes link) writes

  -- On a transport with a stream that takes writes and with callsigns that fit, `send` succeeds. A
  -- reader of the bytes that were written gets the frames back, wherever the deliveries begin and
  -- end, and their payloads in order are the data that was sent.
  pub send-read_frames :
      (payload : Bytes) (parts : List Bytes)
      → link.has_stream ≡ true
      → link.write_error ≡ none
      → link.written ≡ []
      → All IsNonempty parts
      → concat parts ≡ (send payload link).1.written
      → ((send payload link).0 ≡ ok tt)
        × (frames : List AgwpeFrame) × (read_frames (length frames) [] (map chunk parts)
            ≡ some frames)
        × (concat (map payload_of frames) ≡ payload)
  unfolding data_frames
  send-read_frames payload parts stream writes fresh full e =
      let pieces = chunks (length payload) payload in
      let frames = data_frames link payload in
      let sent : send payload link
          ≡ (ok tt, record link { written = link.written ++ concat (map encode frames) }) =
        send_lem payload stream writes in
      (
        ap (λ r. r.0) sent,
        frames,
        read_frames-encode frames [] parts
            (frames-IsWireFrame pieces (chunks-IsChunk (length payload) payload)) full
            (e ∙ ap (λ r. r.1.written) sent ∙ ap (λ w. w ++ concat (map encode frames)) fresh),
        ap concat (payloads-frames pieces) ∙ concat-chunks (length payload) payload (omega arith),
      )
