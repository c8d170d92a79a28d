-- ===== src/AdminProtocol/Frame/Stream.antt =====
-- Streams of frames: they read back, and the decoder's loop ends on any bytes.
use hyperdex_rs.Prelude.{
  ℕ, zero, suc, ◌≤◌, ◌≡◌, refl, List, [], ◌∷◌, ◌++◌, All, arith, bit_and, length, length-append,
  ltb, le→ltb,
}
use hyperdex_rs.Prelude.{ok, ◌>>=◌, Returns, Ensures, Ensures-bind, Ensures-fail_if}
use hyperdex_rs.Prelude.Slices.{At-whole, slice-At_end, slice_from-At_end, slice, slice_from}
use hyperdex_rs.Prelude.Bounds.{slice-Returns, slice_from-Returns}
use hyperdex_rs.AdminProtocol.Codes.{AdminError}
use hyperdex_rs.AdminProtocol.Read.{read_array_at}
use hyperdex_rs.AdminProtocol.Read.Safety.{read_array_at-Returns}
use hyperdex_rs.AdminProtocol.Frame.{
  BusyBeeFrame, encode_stream, decode_stream, decode_stream_loop, decode_stream_round, decode_frame,
  frame_header, check_frame_size, busybee_size_mask, max_busybee_frame_size,
}
use hyperdex_rs.AdminProtocol.Frame.Single.{
  IsShort, total, frame_bytes, length-frame_bytes, encode_frame-bytes, frame_header-bytes,
  size_of_header, decode_frame-bytes,
}

decode_frame-Short :
    (frame : BusyBeeFrame) → IsShort frame → decode_frame (frame_bytes frame) ≡ ok frame
unfolding check_frame_size
decode_frame-Short frame short =
    rw (decode_frame-bytes frame short.frame_ok) (ground (arith, short.bounded, short.plain))

decode_stream_round-bytes :
    (frame : BusyBeeFrame) (rest : List ℕ)
    → IsShort frame
    → decode_stream_round (frame_bytes frame ++ rest) ≡ ok (frame, total frame)
unfolding decode_stream_round check_frame_size
decode_stream_round-bytes frame rest short =
    let n = total frame in
    let long = length-append (frame_bytes frame) rest in
    let wide = length-frame_bytes frame in
    let whole : slice {E = AdminError} (frame_bytes frame ++ rest) 0 n ≡ ok (frame_bytes frame) =
      slice-At_end n (omega (arith, wide)) (At-whole (frame_bytes frame) rest) in
    rw (
      le→ltb (length (frame_bytes frame ++ rest)) 4 (omega (arith, long, wide)),
      frame_header-bytes frame short.frame_ok rest,
      size_of_header frame short.frame_ok,
      le→ltb n 4 (omega arith),
      le→ltb max_busybee_frame_size n short.bounded,
      le→ltb (length (frame_bytes frame ++ rest)) n (omega (arith, long, wide)),
      whole,
      decode_frame-Short frame short,
    )

stream_bytes : List BusyBeeFrame → List ℕ
stream_bytes [] = []
stream_bytes (frame ∷ frames) = frame_bytes frame ++ stream_bytes frames

encode_stream-bytes :
    (frames : List BusyBeeFrame)
    → All IsShort frames
    → encode_stream frames ≡ ok (stream_bytes frames)
unfolding encode_stream stream_bytes
encode_stream-bytes [] short = refl
encode_stream-bytes (frame ∷ frames) short =
    rw (encode_frame-bytes frame short.0.frame_ok, encode_stream-bytes frames short.1)

-- A round that has something to read
loop_step :
    (fuel : ℕ) (b : ℕ) (bytes tail : List ℕ) (frame : BusyBeeFrame) (n : ℕ)
    (frames : List BusyBeeFrame)
    → decode_stream_round (b ∷ bytes) ≡ ok (frame, n)
    → slice_from {E = AdminError} (b ∷ bytes) n ≡ ok tail
    → decode_stream_loop fuel tail ≡ ok frames
    → decode_stream_loop (suc fuel) (b ∷ bytes) ≡ ok (frame ∷ frames)
unfolding decode_stream_loop
loop_step fuel b bytes tail frame n frames h h' h'' = rw (h, h', h'')

loop_step_any :
    (fuel : ℕ) (bytes tail : List ℕ) (frame : BusyBeeFrame) (n : ℕ) (frames : List BusyBeeFrame)
    → 1 ≤ length bytes
    → decode_stream_round bytes ≡ ok (frame, n)
    → slice_from {E = AdminError} bytes n ≡ ok tail
    → decode_stream_loop fuel tail ≡ ok frames
    → decode_stream_loop (suc fuel) bytes ≡ ok (frame ∷ frames)
loop_step_any fuel [] tail frame n frames h = absurd (omega arith)
loop_step_any fuel (b ∷ bytes) tail frame n frames h = loop_step fuel b bytes tail frame n frames

decode_stream_loop-bytes :
    (fuel : ℕ) (frames : List BusyBeeFrame)
    → All IsShort frames
    → length (stream_bytes frames) ≤ fuel
    → decode_stream_loop fuel (stream_bytes frames) ≡ ok frames
unfolding stream_bytes decode_stream_loop
decode_stream_loop-bytes fuel [] short enough = refl
decode_stream_loop-bytes zero (frame ∷ frames) short enough = absurd (
    omega
      (arith, length-append (frame_bytes frame) (stream_bytes frames), length-frame_bytes frame))
decode_stream_loop-bytes (suc fuel) (frame ∷ frames) short enough =
    let rest = stream_bytes frames in
    let long = length-append (frame_bytes frame) rest in
    let wide = length-frame_bytes frame in
    loop_step_any fuel (frame_bytes frame ++ rest) rest frame (total frame) frames
      (omega (arith, long, wide)) (decode_stream_round-bytes frame rest short.0)
      (slice_from-At_end (total frame) (omega (arith, wide)) (At-whole (frame_bytes frame) rest))
      (decode_stream_loop-bytes fuel frames short.1 (omega (arith, long, wide)))

-- A stream of frames that are at most 8 MiB long, with flags in the high byte and without the flag
-- for extended frames, is encoded, and reads back as the same frames in the same order.
pub decode_stream-encode_stream :
    (frames : List BusyBeeFrame)
    → All IsShort frames
    → (encode_stream frames >>= decode_stream) ≡ ok frames
unfolding decode_stream
decode_stream-encode_stream frames short =
    rw (encode_stream-bytes frames short)
      (decode_stream_loop-bytes (length (stream_bytes frames)) frames short (omega arith))

frame_header-Returns : (bytes : List ℕ) → Returns (frame_header bytes)
unfolding frame_header
frame_header-Returns bytes =
    Ensures-bind _ _ (read_array_at bytes 0 4) _ (read_array_at-Returns bytes 0 4) λ array _. tt

pub decode_frame-Returns : (bytes : List ℕ) → Returns (decode_frame bytes)
unfolding decode_frame check_frame_size
decode_frame-Returns bytes = Ensures-fail_if _ (ltb (length bytes) 4) _ _ λ long.
    Ensures-bind _ _ (frame_header bytes) _ (frame_header-Returns bytes)
      λ header _. ground (arith, slice_from-Returns AdminError bytes 4)

check_frame_size-Ensures : (n : ℕ) → Ensures (λ _. 4 ≤ n) (check_frame_size n)
unfolding check_frame_size
check_frame_size-Ensures n = ground arith

-- A round takes four bytes at least, and no more than there are.
decode_stream_round-stays :
    (bytes : List ℕ)
    → Ensures
        (λ (r : BusyBeeFrame × ℕ). (4 ≤ r.1) × (r.1 ≤ length bytes))
        (decode_stream_round bytes)
unfolding decode_stream_round
decode_stream_round-stays bytes = Ensures-fail_if _ (ltb (length bytes) 4) _ _ λ long.
    Ensures-bind _ _ (frame_header bytes) _ (frame_header-Returns bytes) λ header _.
      let n = bit_and header busybee_size_mask in
      Ensures-bind _ _ (check_frame_size n) _ (check_frame_size-Ensures n) λ _ enough.
        Ensures-fail_if _ (ltb (length bytes) n) _ _ λ whole.
          Ensures-bind _ _ (slice bytes 0 n) _
            (slice-Returns AdminError bytes 0 n (omega arith) (ground arith))
            λ first _.
              Ensures-bind _ _ (decode_frame first) _ (decode_frame-Returns first)
                λ frame _. ground arith

decode_stream_loop-Returns :
    (fuel : ℕ) (bytes : List ℕ) → length bytes ≤ fuel → Returns (decode_stream_loop fuel bytes)
unfolding decode_stream_loop
decode_stream_loop-Returns fuel [] enough = tt
decode_stream_loop-Returns zero (b ∷ bytes) enough = absurd (omega arith)
decode_stream_loop-Returns (suc fuel) (b ∷ bytes) enough =
    Ensures-bind _ _ (decode_stream_round (b ∷ bytes)) _ (decode_stream_round-stays (b ∷ bytes))
      λ r hr.
        Ensures-bind _ _ (slice_from (b ∷ bytes) r.1) _
          (slice_from-Returns AdminError (b ∷ bytes) r.1 hr.1)
          λ tail ht.
            Ensures-bind _ _ (decode_stream_loop fuel tail) _
              (decode_stream_loop-Returns fuel tail (omega arith)) λ frames _. tt

-- The stream decoder comes back on any bytes, with frames or with an error: its loop ends, and no
-- slice of it is out of range.
pub decode_stream-Returns : (bytes : List ℕ) → Returns (decode_stream bytes)
unfolding decode_stream
decode_stream-Returns bytes = decode_stream_loop-Returns (length bytes) bytes (omega arith)
