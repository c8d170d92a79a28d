-- ===== src/AdminProtocol/Frame.antt =====
-- `BusyBeeFrame` of crates/hyperdex-admin-protocol/src/lib.rs: a word with flags and the length of
-- the frame, and the payload.
pub mod Single
pub mod Stream
use hyperdex_rs.Prelude.{
  ℕ, zero, suc, ◌+◌, List, [], ◌∷◌, ◌++◌, bit_and, bit_or, length, take, drop, ltb, ◌==◌, not,
}
use hyperdex_rs.Prelude.{Result, ok, panic, ◌>>=◌, ◌>>◌, fail_if}
use hyperdex_rs.Prelude.Words.{to_be_bytes, from_be_bytes}
use hyperdex_rs.Prelude.Slices.{slice, slice_from}
use hyperdex_rs.AdminProtocol.Codes.{
  AdminError, flags_overlap_size, extended_frame, buffer_too_short, frame_too_small,
  frame_too_large, frame_size_mismatch, truncated,
}
use hyperdex_rs.AdminProtocol.Read.{read_array_at}

pub record BusyBeeFrame : Type 0 where
  pub flags : ℕ
  pub payload : List ℕ

abbrev pub busybee_header_size : ℕ
busybee_header_size = 4

abbrev pub busybee_header_identify : ℕ
busybee_header_identify = 0x8000_0000

abbrev pub busybee_header_extended : ℕ
busybee_header_extended = 0x4000_0000

abbrev pub max_busybee_frame_size : ℕ
max_busybee_frame_size = 8_388_608

abbrev pub busybee_size_mask : ℕ
busybee_size_mask = 0x00ff_ffff

-- `!BUSYBEE_SIZE_MASK`, in 32 bits
abbrev pub busybee_flags_mask : ℕ
busybee_flags_mask = 0xff00_0000

abbrev pub new_frame : List ℕ → BusyBeeFrame
new_frame payload = record { flags = 0; payload = payload }

abbrev pub identify_frame : List ℕ → BusyBeeFrame
identify_frame payload = record { flags = busybee_header_identify; payload = payload }

unfoldable pub encode_frame : BusyBeeFrame → Result (List ℕ) AdminError
encode_frame frame =
    let total_len = busybee_header_size + length frame.payload in
    do
      fail_if (not (bit_and frame.flags busybee_size_mask == 0)) flags_overlap_size
      fail_if (ltb busybee_size_mask total_len) extended_frame
      ok (to_be_bytes 4 (bit_or frame.flags total_len) ++ frame.payload)

unfoldable pub frame_header : List ℕ → Result ℕ AdminError
frame_header bytes = do array ← read_array_at bytes 0 4; ok (from_be_bytes array)

unfoldable pub check_frame_size : ℕ → Result (Unit {0}) AdminError
check_frame_size total_len = do
  fail_if (ltb total_len busybee_header_size) frame_too_small
  fail_if (ltb max_busybee_frame_size total_len) frame_too_large

unfoldable pub decode_frame : List ℕ → Result BusyBeeFrame AdminError
decode_frame bytes = do
  fail_if (ltb (length bytes) busybee_header_size) buffer_too_short
  header ← frame_header bytes
  total_len ← ok (bit_and header busybee_size_mask)
  check_frame_size total_len
  fail_if (not (total_len == length bytes)) frame_size_mismatch
  flags ← ok (bit_and header busybee_flags_mask)
  fail_if (not (bit_and flags busybee_header_extended == 0)) extended_frame
  payload ← slice_from bytes busybee_header_size
  ok (record { flags = flags; payload = payload })

-- A round of `while !bytes.is_empty()`: the first frame of the bytes and how long it is.
unfoldable pub decode_stream_round : List ℕ → Result (BusyBeeFrame × ℕ) AdminError
decode_stream_round bytes = do
  fail_if (ltb (length bytes) busybee_header_size) truncated
  header ← frame_header bytes
  total_len ← ok (bit_and header busybee_size_mask)
  check_frame_size total_len
  fail_if (ltb (length bytes) total_len) truncated
  first ← slice bytes 0 total_len
  frame ← decode_frame first
  ok (frame, total_len)

-- A round takes four bytes at least, so fuel for each byte is enough; without fuel the model would
-- panic.
unfoldable pub decode_stream_loop : ℕ → List ℕ → Result (List BusyBeeFrame) AdminError
decode_stream_loop fuel [] = ok []
decode_stream_loop zero (b ∷ bytes) = panic
decode_stream_loop (suc fuel) (b ∷ bytes) = do
  (frame, total_len) ← decode_stream_round (b ∷ bytes)
  tail ← slice_from (b ∷ bytes) total_len
  frames ← decode_stream_loop fuel tail
  ok (frame ∷ frames)

unfoldable pub decode_stream : List ℕ → Result (List BusyBeeFrame) AdminError
decode_stream bytes = decode_stream_loop (length bytes) bytes

unfoldable pub encode_stream : List BusyBeeFrame → Result (List ℕ) AdminError
encode_stream [] = ok []
encode_stream (frame ∷ frames) = do
  bytes ← encode_frame frame
  rest ← encode_stream frames
  ok (bytes ++ rest)
