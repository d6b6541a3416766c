-- ===== src/Agwpe/Transport/Events.antt =====
-- What `open_ax25_link` makes of the frames that arrive.
use packet_browser.Agwpe.Frame.RoundTrip.{IsWireFrame}
use packet_browser.Agwpe.Frame.{encode}
use packet_browser.Agwpe.Stream.Reassembly.{Taken, read_frame_lem, IsNonempty}
use packet_browser.Agwpe.Stream.{chunk, Input, read_frame}
use packet_browser.Agwpe.Transport.{
  Link, settle, read_by_deadline, TransportError, verdict, verdict_of, await_link,
}
use packet_browser.Agwpe.Types.{AgwpeFrame}
use packet_browser.Prelude.{
  ℕ, zero, suc, ◌<◌, arith, ◌≡◌, ap, ◌∙◌, Bytes, true, false, List, [], ◌∷◌, ◌++◌, append_assoc,
  Option, none, some, Result, ok, All, length, concat, map,
}

abbrev pub input_of : Bytes → List Bytes → Input
input_of buf parts = record { read_buf = buf; incoming = map chunk parts }

-- The transport with a stream, at a point of its input.
abbrev pub at_input : Link → Bytes → List Bytes → Link
at_input link buf parts = record link { has_stream = true; input = input_of buf parts }

pub read_lem :
    (link : Link) (f : AgwpeFrame) (buf : Bytes) (parts : List Bytes) {rest : Bytes}
    (t : Taken f (read_frame buf (map chunk parts)) rest)
    → read_by_deadline false (at_input link buf parts) ≡ (ok f, input_of t.left t.later)
unfolding read_by_deadline settle
read_lem link f buf parts t = ap settle t.result_is

module _ (lossy : Bytes → Bytes) (link : Link) where
  -- One round of the wait, by what the frame says.
  abbrev follow : ℕ → Link → Option (Result TransportError Unit) → Result TransportError Unit × Link
  follow frames later (some r) = (r, later)
  follow frames later none = await_link lossy frames later

  await_link_step :
      (frames : ℕ) (f : AgwpeFrame) (buf : Bytes) (parts : List Bytes) {rest : Bytes}
      (t : Taken f (read_frame buf (map chunk parts)) rest)
      → await_link lossy (suc frames) (at_input link buf parts)
        ≡ follow frames (at_input link t.left t.later) (verdict lossy f)
  unfolding await_link
  await_link_step frames f buf parts t =
      ap
        (λ reading.
          (let link' = record link { has_stream = true; input = reading.1 } in
            follow frames link' (verdict_of lossy reading.0)))
        (read_lem link f buf parts t)

  -- The wait of `open_ax25_link` goes past any number of frames that say nothing of the link, and
  -- ends with the first that does, by its verdict, if the deadline leaves time for these reads;
  -- what comes behind that frame is left to be read.
  pub await_link-encode :
      (noise : List AgwpeFrame) (f : AgwpeFrame) (r : Result TransportError Unit) (buf : Bytes)
      (parts : List Bytes) (rest : Bytes) (frames : ℕ)
      → All (λ g. IsWireFrame g × (verdict lossy g ≡ none)) noise
      → IsWireFrame f
      → verdict lossy f ≡ some r
      → All IsNonempty parts
      → buf ++ concat parts ≡ concat (map encode noise) ++ (encode f ++ rest)
      → length noise < frames
      → (left : Bytes) × (later : List Bytes) × (await_link lossy frames (at_input link buf parts)
          ≡ (r, at_input link left later))
        × (left ++ concat later ≡ rest)
  await_link-encode noise f r buf parts rest zero quiet w says full e h = absurd (omega (arith, h))
  await_link-encode [] f r buf parts rest (suc frames) quiet w says full e h =
      let t = read_frame_lem f buf parts rest w full e in
      (
        t.left,
        t.later,
        await_link_step frames f buf parts t
            ∙ ap (follow frames (at_input link t.left t.later)) says,
        t.rest_is,
      )
  await_link-encode (g ∷ noise) f r buf parts rest (suc frames) ((wg, silent), quiet) w says full e
        h =
      let t =
        read_frame_lem g buf parts (concat (map encode noise) ++ (encode f ++ rest)) wg full
          (e ∙ append_assoc (encode g) (concat (map encode noise)) (encode f ++ rest)) in
      let (left, later, opened, behind) =
        await_link-encode noise f r t.left t.later rest frames quiet w says t.later_nonempty
          t.rest_is (omega (arith, h)) in
      (
        left,
        later,
        await_link_step frames g buf parts t
            ∙ ap (follow frames (at_input link t.left t.later)) silent
            ∙ opened,
        behind,
      )
