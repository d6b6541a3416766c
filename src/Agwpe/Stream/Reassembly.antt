-- ===== src/Agwpe/Stream/Reassembly.antt =====
-- Frames come out of the stream as they were put in, however TCP cuts it.
use packet_browser.Agwpe.Frame.RoundTrip.{
  IsWireFrame, length-encode, decode-encode_frame, behind_to, encode-append,
}
use packet_browser.Agwpe.Frame.{encode, decode, max_frame_data_size, header_size}
use packet_browser.Agwpe.Stream.{Read, chunk, Outcome, ready, pending, Input, try_frame, read_frame}
use packet_browser.Agwpe.Types.{AgwpeError, AgwpeFrame}
use packet_browser.Prelude.{
  ℕ, zero, suc, ◌+◌, ◌≤◌, ◌<◌, Bytes, List, [], ◌∷◌, ◌++◌, append_assoc, append-nil, map, Option,
  none, some, Result, ok, err, ◌≡◌, ◌≢◌, refl, sym, ap, ◌∙◌, inl, inr, arith, ltb, length, take,
  drop, concat, All, length-append, le→ltb, lt→ltb, take-append_length, drop-append_length,
  drop-append_le, take-append_le, length-drop, Bool-cases, ltb→lt, ltb→le,
}
use mathlib.Core.Option
use packet_browser.Text.Words.{le_at, le_at-append, to_le_bytes, le_at-to_le_bytes}

pub announced :
    (f : AgwpeFrame) (rest : Bytes)
    → IsWireFrame f
    → le_at (drop 28 (encode f ++ rest)) 0 ≡ f.data_len
announced f rest w =
    let g = record f { payload = f.payload ++ rest } in
    ap (λ s. le_at (drop 28 s) 0) (encode-append f rest)
    ∙ ap (λ s. le_at s 0) (behind_to g w.from_ok w.to_ok 0 28 refl)
    ∙ le_at-to_le_bytes f.data_len (to_le_bytes f.user_data ++ (f.payload ++ rest))
        (omega (arith, w.fits))

decode_alone : (f : AgwpeFrame) → IsWireFrame f → decode (encode f) ≡ ok f
decode_alone f w = ap decode (sym (append-nil (encode f))) ∙ decode-encode_frame f [] w

-- What is in the buffer and what is to come begin with a frame.
module _ (f : AgwpeFrame) (w : IsWireFrame f) (buf more rest : Bytes)
    (e : buf ++ more ≡ encode f ++ rest) where
  announced_buf : 36 ≤ length buf → le_at (drop 28 buf) 0 ≡ f.data_len
  announced_buf h =
      sym (le_at-append (drop 28 buf) more (omega (arith, length-drop 28 buf)))
      ∙ ap (λ s. le_at s 0) (sym (drop-append_le 28 buf more (omega arith)))
      ∙ ap (λ s. le_at (drop 28 s) 0) e
      ∙ announced f rest w

  -- Too little for the frame: wait.
  try_frame_short : length buf < length (encode f) → try_frame buf ≡ none
  unfolding try_frame
  try_frame_short h = elim (Bool-cases (ltb (length buf) header_size)) [
    | inl less ↦ rw less refl
    | inr enough ↦
        rw (enough, announced_buf (ground arith))
          (rw (le→ltb max_frame_data_size f.data_len w.fits) (
            rw (lt→ltb (length buf) (header_size + f.data_len) (omega (arith, length-encode f w)))
              refl))
  ]

  -- Enough: the frame, and the rest of the buffer.
  try_frame_whole :
      length (encode f) ≤ length buf
      → (left : Bytes) × (try_frame buf ≡ some (ok f, left)) × (left ++ more ≡ rest)
  unfolding try_frame
  try_frame_whole h =
      let size = length-encode f w in
      let total = header_size + f.data_len in
      let front : take total buf ≡ encode f =
        sym (take-append_le total buf more (omega arith))
        ∙ ap (take total) e
        ∙ take-append_length (encode f) rest total (sym size) in
      (
        drop total buf,
        rw (le→ltb (length buf) header_size (omega arith), announced_buf (omega arith))
            (rw (le→ltb max_frame_data_size f.data_len w.fits) (
              rw (le→ltb (length buf) total (omega arith)) (
                rw (front, decode_alone f w)
                  (ap {B = Option (Result AgwpeError AgwpeFrame × Bytes)}
                    (λ k. some (ok f, drop (header_size + k) buf))
                    (announced_buf (omega arith)))))),
        (sym (drop-append_le total buf more (omega arith))
            ∙ ap (drop total) e
            ∙ drop-append_length (encode f) rest total (sym size)),
      )

abbrev pub IsNonempty : Bytes → Type 0
IsNonempty s = s ≢ []

-- One frame: what is left over, in the buffer and in the socket, is what came behind it.
pub record Taken (f : AgwpeFrame) (result : Outcome × Input) (rest : Bytes) : Type 0 where
  pub left : Bytes
  pub later : List Bytes
  pub result_is : result ≡ (ready (ok f), record { read_buf = left; incoming = map chunk later })
  pub rest_is : left ++ concat later ≡ rest
  pub later_nonempty : All IsNonempty later

-- The two ways of one round of the loop.
read_frame_ready :
    (buf : Bytes) (chunks : List Bytes) {r : Result AgwpeError AgwpeFrame} {left : Bytes}
    → try_frame buf ≡ some (r, left)
    → read_frame buf (map chunk chunks)
      ≡ (ready r, record { read_buf = left; incoming = map chunk chunks })
unfolding read_frame
read_frame_ready buf [] h = rw (h, read_frame) refl
read_frame_ready buf ([] ∷ cs) h = rw (h, read_frame) refl
read_frame_ready buf ((b ∷ bs) ∷ cs) h = rw (h, read_frame) refl

read_frame_more :
    (buf : Bytes) (b : ℕ) (bs : Bytes) (later : List Read)
    → try_frame buf ≡ none
    → read_frame buf (chunk (b ∷ bs) ∷ later) ≡ read_frame (buf ++ b ∷ bs) later
unfolding read_frame
read_frame_more buf b bs later h = rw (h, read_frame) refl

pub read_frame_lem :
    (f : AgwpeFrame) (buf : Bytes) (chunks : List Bytes) (rest : Bytes)
    → IsWireFrame f
    → All IsNonempty chunks
    → buf ++ concat chunks ≡ encode f ++ rest
    → Taken f (read_frame buf (map chunk chunks)) rest
read_frame_lem f buf [] rest w full e =
    let size = ap length e in
    let (left, taken, left_is) =
      try_frame_whole f w buf [] rest e
        (omega (arith, size, length-append buf [], length-append (encode f) rest)) in
    record {
      left = left;
      later = [];
      result_is = read_frame_ready buf [] taken;
      rest_is = left_is;
      later_nonempty = tt;
    }
read_frame_lem f buf ([] ∷ cs) rest w full e = absurd (full.0 refl)
read_frame_lem f buf ((b ∷ bs) ∷ cs) rest w full e =
    elim (Bool-cases (ltb (length buf) (length (encode f)))) [
      | inl short ↦
          rw
            (read_frame_more buf b bs (map chunk cs)
              (try_frame_short f w buf ((b ∷ bs) ++ concat cs) rest e (ltb→lt _ _ short)))
            (read_frame_lem f (buf ++ b ∷ bs) cs rest w full.1
              (append_assoc buf (b ∷ bs) (concat cs) ∙ e))
      | inr enough ↦
          let (left, taken, left_is) =
            try_frame_whole f w buf ((b ∷ bs) ++ concat cs) rest e (ltb→le _ _ enough) in
          record {
            left = left;
            later = (b ∷ bs) ∷ cs;
            result_is = read_frame_ready buf ((b ∷ bs) ∷ cs) taken;
            rest_is = left_is;
            later_nonempty = full;
          }
    ]

abbrev frame_of : Outcome → Option AgwpeFrame
frame_of (ready (ok f)) = some f
frame_of (ready (err e)) = none
frame_of pending = none

-- Frames read one after the other, `none` if one of the reads gives none.
unfoldable pub read_frames : ℕ → Bytes → List Read → Option (List AgwpeFrame)
read_frames zero buf incoming = some []
read_frames (suc n) buf incoming =
    let result = read_frame buf incoming in
    let rest = read_frames n result.1.read_buf result.1.incoming in
    elim (frame_of result.0) [ some f ↦ Option.map (λ fs. f ∷ fs) rest | none ↦ none ]

-- Any number of frames sent one after the other are read as they were sent, in order, wherever
-- the deliveries of the socket begin and end.
pub read_frames-encode :
    (frames : List AgwpeFrame) (buf : Bytes) (chunks : List Bytes)
    → All IsWireFrame frames
    → All IsNonempty chunks
    → buf ++ concat chunks ≡ concat (map encode frames)
    → read_frames (length frames) buf (map chunk chunks) ≡ some frames
unfolding read_frames
read_frames-encode [] buf chunks w full e = refl
read_frames-encode (f ∷ fs) buf chunks w full e =
    let t = read_frame_lem f buf chunks (concat (map encode fs)) w.0 full e in
    rw (t.result_is, read_frames)
      (rw t.result_is
        (rw (read_frames-encode fs t.left t.later w.1 t.later_nonempty t.rest_is) refl))
