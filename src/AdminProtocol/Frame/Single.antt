-- ===== src/AdminProtocol/Frame/Single.antt =====
-- One frame: what its header holds, and when it reads back.
use hyperdex_rs.Prelude.{
  ℕ, ◌+◌, ◌*◌, ◌/◌, ◌%◌, ◌<◌, ◌≤◌, ◌≡◌, ◌∙◌, ap, List, ◌++◌, arith, bit_and, bit_or, length,
  length-append, ◌==◌, not, [], append-nil, ==_refl, le→ltb,
}
use hyperdex_rs.Prelude.{ok, ◌↔◌, ◌>>=◌, ◌>>◌, fail_if}
use hyperdex_rs.Prelude.Words.{to_be_bytes, length-to_be_bytes, from_be_bytes-to_be_bytes}
use hyperdex_rs.Prelude.Bits.{bit_and-mask, bit_and-shifted, bit_or-shifted, bit_or_comm}
use hyperdex_rs.Prelude.Slices.{
  At-whole, At-step, At-all, get_range-At_width, At-left, slice_from-At,
}
use hyperdex_rs.AdminProtocol.Codes.{extended_frame}
use hyperdex_rs.AdminProtocol.Read.{read_array_at}
use hyperdex_rs.AdminProtocol.Frame.{
  BusyBeeFrame, encode_frame, decode_frame, frame_header, check_frame_size, busybee_size_mask,
  busybee_flags_mask, busybee_header_extended, max_busybee_frame_size,
}

-- The flags are above the size bits of a 32-bit word, and the size fits its 24 bits.
pub record IsFrame (frame : BusyBeeFrame) : Type 0 where
  pub word : frame.flags < 0x1_0000_0000
  pub apart : frame.flags % 0x100_0000 ≡ 0
  pub size : 4 + length frame.payload < 0x100_0000

module _ (frame : BusyBeeFrame) where
  abbrev pub total : ℕ
  total = 4 + length frame.payload

  -- The frame as it stands on the wire.
  abbrev pub frame_bytes : List ℕ
  frame_bytes = to_be_bytes 4 (frame.flags + total) ++ frame.payload

  pub length-frame_bytes : length frame_bytes ≡ total
  length-frame_bytes = omega (
    arith,
    length-append (to_be_bytes 4 (frame.flags + total)) frame.payload,
    length-to_be_bytes 4 (frame.flags + total),
  )

module _ (frame : BusyBeeFrame) (good : IsFrame frame) where
  pub header_word : bit_or frame.flags (total frame) ≡ frame.flags + (total frame)
  header_word =
      let g = frame.flags / 0x100_0000 in
      let e : frame.flags ≡ g * 0x100_0000 = omega (arith, good.apart) in
      bit_or_comm frame.flags (total frame)
      ∙ ap (bit_or (total frame)) e
      ∙ bit_or-shifted 24 (total frame) g good.size
      ∙ omega (arith, e)

  pub size_of_header : bit_and (frame.flags + (total frame)) busybee_size_mask ≡ (total frame)
  size_of_header =
      omega (arith, bit_and-mask 24 (frame.flags + (total frame)), good.apart, good.size)

  pub flags_of_header : bit_and (frame.flags + (total frame)) busybee_flags_mask ≡ frame.flags
  flags_of_header =
      let h = frame.flags + (total frame) in
      omega (
        arith,
        bit_and-shifted 24 h 0xff,
        bit_and-mask 8 (h / 0x100_0000),
        good.apart,
        good.size,
        good.word,
      )

  pub encode_frame-bytes : encode_frame frame ≡ ok (frame_bytes frame)
  unfolding encode_frame
  encode_frame-bytes =
      let e : bit_and frame.flags busybee_size_mask ≡ 0 =
        omega (arith, bit_and-mask 24 frame.flags, good.apart) in
      rw (e, le→ltb busybee_size_mask (total frame) (omega (arith, good.size)), header_word)

  pub frame_header-bytes :
      (rest : List ℕ)
      → frame_header ((frame_bytes frame) ++ rest) ≡ ok (frame.flags + (total frame))
  unfolding frame_header read_array_at
  frame_header-bytes rest =
      let word = to_be_bytes 4 (frame.flags + (total frame)) in
      let at = At-left word frame.payload (At-whole (frame_bytes frame) rest) in
      rw (
        get_range-At_width 4 (length-to_be_bytes 4 (frame.flags + (total frame))) at,
        from_be_bytes-to_be_bytes 4 (frame.flags + (total frame))
            (omega (arith, good.word, good.apart, good.size)),
      )

  pub decode_frame-bytes : decode_frame (frame_bytes frame) ≡ (
      check_frame_size (total frame)
      >> (fail_if (not (bit_and frame.flags busybee_header_extended == 0)) extended_frame
          >> ok frame))
  unfolding decode_frame
  decode_frame-bytes =
      let word = to_be_bytes 4 (frame.flags + (total frame)) in
      let header : frame_header (frame_bytes frame) ≡ ok (frame.flags + (total frame)) =
        rw append-nil at (frame_header-bytes []) in
      let at =
        At-step word frame.payload 4 (length-to_be_bytes 4 (frame.flags + (total frame)))
          (At-all (frame_bytes frame)) in
      rw (
        length-frame_bytes frame,
        header,
        size_of_header,
        ==_refl (total frame),
        flags_of_header,
        slice_from-At at,
        append-nil,
        le→ltb (total frame) 4 (omega arith),
      )

  -- A frame that the encoder accepts, with its flags in the high byte of a 32-bit word, reads back
  -- exactly when it is at most 8 MiB long and does not have the flag for extended frames: the
  -- encoder's own limit, 16 MiB, is wider than the decoder's.
  pub decode_frame-encode_iff : ((encode_frame frame >>= decode_frame) ≡ ok frame) ↔ (
      (4 + length frame.payload ≤ max_busybee_frame_size)
      × (bit_and frame.flags busybee_header_extended ≡ 0))
  unfolding check_frame_size
  decode_frame-encode_iff = (
    λ h. let h' = rw (encode_frame-bytes, decode_frame-bytes) at h in ground arith,
    λ h. rw (encode_frame-bytes, decode_frame-bytes) (ground arith),
  )

-- A frame that passes both codecs.
pub record IsShort (frame : BusyBeeFrame) : Type 0 where
  pub frame_ok : IsFrame frame
  pub bounded : 4 + length frame.payload ≤ max_busybee_frame_size
  pub plain : bit_and frame.flags busybee_header_extended ≡ 0
