-- ===== src/LegacyFrontend/Read.antt =====
-- Reading frames from a connection: requests, identify frames, and the end of the loop.
use hyperdex_rs.Prelude.{
  ℕ, suc, ◌+◌, ◌-◌, ◌<◌, ◌≤◌, ◌≡◌, ap, sym, ◌∙◌, List, [], ◌∷◌, ◌++◌, Option, some, arith, length,
  length-append, le→ltb, take, drop, take-prefix, drop-prefix, drop-skip, take_two, take-append,
  drop-append, append_assoc, append-nil, bit_and, bit_or,
}
use hyperdex_rs.Prelude.{Result, ok}
use hyperdex_rs.Prelude.Bits.{bit_and-mask, bit_and-bit}
use hyperdex_rs.Prelude.Words.{
  u64_mod, to_be_bytes, from_be_bytes, length-to_be_bytes, from_be_bytes-to_be_bytes,
}
use hyperdex_rs.LegacyProtocol.Header.{
  RequestHeader, ResponseHeader, max_busybee_frame_size, busybee_header_identify,
  encode_request_frame, encode_response_frame, encode_identify_frame,
}
use hyperdex_rs.LegacyProtocol.Codes.{message_type_code}
use hyperdex_rs.LegacyProtocol.Header.RoundTrip.{
  IsRequestHeader, IsResponseHeader, request_fields, response_fields, length-request_fields,
  length-response_fields, encode_request_frame-parts, encode_response_frame-parts,
  decode_request_header-fields, decode_response_header-fields,
}
use hyperdex_rs.LegacyFrontend.{
  Connection, FrontendError, again, done, decode_identify_remote_server_id, request_of_frame,
  handle_frame, read_round, read_request_frame, read_response_frame,
}

-- A frame as the reader sees it: a length word, and as many bytes as it announces.
module _ (word fields rest out : List ℕ) (raw id : ℕ) (four : length word ≡ 4)
    (reads : from_be_bytes word ≡ raw) (total : bit_and raw 0x00ff_ffff ≡ 4 + length fields)
    (fits : 4 + length fields ≤ max_busybee_frame_size) where
  read_round-frame :
      read_round id (record { input = word ++ (fields ++ rest); output = out })
      ≡ handle_frame id raw (word ++ fields) (record { input = rest; output = out })
  unfolding read_round
  read_round-frame =
      let four_more : 4 + length fields - 4 ≡ length fields = omega arith in
      rw (
        take-prefix 4 word (fields ++ rest) four,
        drop-prefix 4 word (fields ++ rest) four,
        reads,
        total,
        le→ltb (length (word ++ (fields ++ rest))) 4
            (omega (arith, length-append word (fields ++ rest))),
        le→ltb (4 + length fields) 4 (omega arith),
        le→ltb max_busybee_frame_size (4 + length fields) fits,
        four_more,
        le→ltb (length (fields ++ rest)) (length fields) (omega (arith, length-append fields rest)),
        take-append fields rest,
        drop-append fields rest,
      )

-- A length up to 8 MiB is what the mask leaves of it, and it has not the top bit.
length_bits :
    (n : ℕ)
    → n ≤ max_busybee_frame_size
    → (bit_and n 0x00ff_ffff ≡ n) × (bit_and n busybee_header_identify ≡ 0)
length_bits n h = (omega (arith, bit_and-mask 24 n), omega (arith, bit_and-bit 31 n))

-- Four bytes of length, the message type, the flags and two words stand before the nonce.
from_nonce :
    (v t n word body : List ℕ) (mt fl : ℕ)
    → length v ≡ 8
    → length t ≡ 8
    → length word ≡ 4
    → drop 22 (word ++ ((mt ∷ fl ∷ (v ++ (t ++ n))) ++ body)) ≡ n ++ body
from_nonce v t n word body mt fl hv ht four =
    drop-skip 4 18 word ((mt ∷ fl ∷ (v ++ (t ++ n))) ++ body) four
    ∙ ap (drop 16)
        (append_assoc v (t ++ n) body ∙ ap (λ (xs : List ℕ). v ++ xs) (append_assoc t n body))
    ∙ drop-skip 8 8 v (t ++ (n ++ body)) hv
    ∙ drop-prefix 8 t (n ++ body) ht

-- What one round of the loop makes of the loop.
pub read_request_frame-done :
    (fuel id : ℕ) (c c' : Connection) {r : Result (Option (RequestHeader × List ℕ)) FrontendError}
    → read_round id c ≡ done r c'
    → read_request_frame (suc fuel) id c ≡ some (r, c')
unfolding read_request_frame
read_request_frame-done fuel id c c' h = rw (h, read_request_frame)

pub read_request_frame-again :
    (fuel id : ℕ) (c c' : Connection)
    → read_round id c ≡ again c'
    → read_request_frame (suc fuel) id c ≡ read_request_frame fuel id c'
unfolding read_request_frame
read_request_frame-again fuel id c c' h = rw (h, read_request_frame)

module _ (header : RequestHeader) (body : List ℕ) (good : IsRequestHeader header)
    (fits : 30 + length body ≤ max_busybee_frame_size) where
  request_of_frame-encode :
      (word : List ℕ)
      → length word ≡ 4
      → request_of_frame (word ++ (request_fields header ++ body))
        ≡ ok (header, to_be_bytes 8 header.nonce ++ body)
  unfolding request_of_frame
  request_of_frame-encode word four =
      let fields = request_fields header in
      let v = to_be_bytes 8 header.version in
      let t = to_be_bytes 8 header.target_virtual_server in
      let n = to_be_bytes 8 header.nonce in
      let long : length (word ++ (fields ++ body)) ≡ 30 + length body = omega (
        arith,
        length-append word (fields ++ body),
        length-append fields body,
        length-request_fields header,
      ) in
      let head : length (word ++ (fields ++ [])) ≡ 30 = omega (
        arith,
        length-append word (fields ++ []),
        length-append fields [],
        length-request_fields header,
      ) in
      let cut : take 30 (word ++ (fields ++ body)) ≡ word ++ (fields ++ []) =
        take_two 30 word fields body (omega (arith, length-request_fields header))
        ∙ ap (λ (xs : List ℕ). word ++ xs) (sym (append-nil fields)) in
      rw (
        long,
        le→ltb (30 + length body) 30 (omega arith),
        cut,
        decode_request_header-fields header word [] four good (omega (arith, head)),
        from_nonce v t n word body (message_type_code header.message_type) header.flags
            (length-to_be_bytes 8 header.version)
            (length-to_be_bytes 8 header.target_virtual_server) four,
      )

  read_round-request :
      (id : ℕ) (rest out : List ℕ)
      → read_round id (record { input = encode_request_frame header body ++ rest; output = out })
        ≡ done
            (ok (some (header, to_be_bytes 8 header.nonce ++ body)))
            (record { input = rest; output = out })
  unfolding handle_frame
  read_round-request id rest out =
      let n = 30 + length body in
      let word = to_be_bytes 4 n in
      let fields = request_fields header ++ body in
      let (mask, top) = length_bits n fits in
      let wide : length fields ≡ 26 + length body =
        omega (arith, length-append (request_fields header) body, length-request_fields header) in
      rw (
        encode_request_frame-parts header body (omega arith),
        append_assoc word fields rest,
        read_round-frame word fields rest out n id (length-to_be_bytes 4 n)
            (from_be_bytes-to_be_bytes 4 n (omega arith)) (omega (arith, mask, wide))
            (omega (arith, wide)),
        top,
        request_of_frame-encode word (length-to_be_bytes 4 n),
      )

  -- The server reads a request frame that a client wrote off the input: it has the client's header, and
  -- the handler is given the nonce's eight bytes and the body. The header fits its widths and the
  -- frame has at most 8 MiB.
  pub read_request_frame-request :
      (fuel id : ℕ) (rest out : List ℕ)
      → read_request_frame
          (suc fuel)
          id
          (record { input = encode_request_frame header body ++ rest; output = out })
        ≡ some (
          ok (some (header, to_be_bytes 8 header.nonce ++ body)),
          record { input = rest; output = out },
        )
  read_request_frame-request fuel id rest out =
      read_request_frame-done fuel id
        (record { input = encode_request_frame header body ++ rest; output = out })
        (record { input = rest; output = out }) (read_round-request id rest out)

-- The client's reading of a response frame gives back the header and the body that the server
-- wrote, for a header that fits its widths and a frame of at most 8 MiB, whatever follows it.
pub read_response_frame-encode :
    (header : ResponseHeader) (body rest : List ℕ)
    → IsResponseHeader header
    → 21 + length body ≤ max_busybee_frame_size
    → read_response_frame (encode_response_frame header body ++ rest) ≡ ok (header, body)
unfolding read_response_frame
read_response_frame-encode header body rest good fits =
    let n = 21 + length body in
    let word = to_be_bytes 4 n in
    let first = response_fields header in
    let fields = first ++ body in
    let four = length-to_be_bytes 4 n in
    let (mask, top) = length_bits n fits in
    let seventeen = length-response_fields header in
    let wide : length fields ≡ 17 + length body =
      omega (arith, length-append first body, seventeen) in
    let all : length (word ++ (fields ++ rest)) ≡ n + length rest =
      omega (arith, length-append word (fields ++ rest), length-append fields rest, wide, four) in
    let one : length (word ++ fields) ≡ n = omega (arith, length-append word fields, wide, four) in
    let less : n - 4 ≡ length fields = omega (arith, wide) in
    let skip : drop 21 (word ++ fields) ≡ body =
      drop-skip 4 17 word fields four ∙ drop-prefix 17 first body seventeen in
    rw (
      encode_response_frame-parts header body (omega arith),
      append_assoc word fields rest,
      take-prefix 4 word (fields ++ rest) four,
      drop-prefix 4 word (fields ++ rest) four,
      from_be_bytes-to_be_bytes 4 n (omega arith),
      mask,
      all,
      le→ltb (n + length rest) 4 (omega arith),
      le→ltb n 4 (omega arith),
      le→ltb max_busybee_frame_size n fits,
      less,
      le→ltb (length (fields ++ rest)) (length fields) (omega (arith, length-append fields rest)),
      take-append fields rest,
      decode_response_header-fields header word body four good (omega (arith, one)),
      skip,
    )

-- An identify frame is answered with one that has the reader's own server id in the first place and,
-- in the second, the id that the frame has there, if that fits 64 bits; the reader goes on with
-- what stands behind the frame.
pub read_request_frame-identify :
    (fuel id client server : ℕ) (rest out : List ℕ)
    → server < u64_mod
    → read_request_frame
        (suc fuel)
        id
        (record { input = encode_identify_frame client server ++ rest; output = out })
      ≡ read_request_frame fuel id
          (record { input = rest; output = out ++ encode_identify_frame id server })
unfolding encode_identify_frame handle_frame decode_identify_remote_server_id
read_request_frame-identify fuel id client server rest out small =
    let raw = bit_or busybee_header_identify 20 in
    let word = to_be_bytes 4 raw in
    let a = to_be_bytes 8 client in
    let b = to_be_bytes 8 server in
    let four = length-to_be_bytes 4 raw in
    let sixteen : length (a ++ b) ≡ 16 =
      omega (arith, length-append a b, length-to_be_bytes 8 client, length-to_be_bytes 8 server) in
    let skip : drop 12 (word ++ (a ++ b)) ≡ b =
      drop-skip 4 8 word (a ++ b) four ∙ drop-prefix 8 a b (length-to_be_bytes 8 client) in
    let whole : take 8 b ≡ b =
      ap (take 8) (sym (append-nil b)) ∙ take-prefix 8 b [] (length-to_be_bytes 8 server) in
    read_request_frame-again fuel id (record { input = (word ++ (a ++ b)) ++ rest; output = out })
      (record { input = rest; output = out ++ encode_identify_frame id server })
      (rw (
        append_assoc word (a ++ b) rest,
        read_round-frame word (a ++ b) rest out raw id four
            (from_be_bytes-to_be_bytes 4 raw (omega arith)) (omega (arith, sixteen))
            (omega (arith, sixteen)),
        le→ltb (length (word ++ (a ++ b))) 20
            (omega (arith, length-append word (a ++ b), sixteen, four)),
        skip,
        whole,
        from_be_bytes-to_be_bytes 8 server small,
      ))
