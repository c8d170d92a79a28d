-- ===== src/LegacyFrontend.antt =====
-- crates/legacy-frontend/src/lib.rs: the TCP side of the legacy protocol. A connection is the bytes
-- that are still to be read and the bytes that were written; the peer closes behind the last byte.
pub mod Read
pub mod Serve
mod Examples
use hyperdex_rs.Prelude.{
  ℕ, zero, suc, ◌+◌, ◌-◌, List, [], ◌∷◌, ◌++◌, Option, none, some, not, bit_and, ◌==◌, ltb,
  if◌then◌else◌, length, take, drop,
}
use hyperdex_rs.Prelude.{Result, ok, err, panic, ◌>>=◌, ◌>>◌, fail_if}
use hyperdex_rs.Prelude.Words.{from_be_bytes}
use hyperdex_rs.LegacyProtocol.Codes.{LegacyProtocolError}
use hyperdex_rs.LegacyProtocol.Header.{
  RequestHeader, ResponseHeader, busybee_header_size, busybee_header_identify,
  max_busybee_frame_size, legacy_request_header_size, legacy_response_header_size,
  decode_request_header, decode_response_header, encode_identify_frame, encode_response_frame,
  config_mismatch_response,
}

pub record Connection : Type 0 where
  pub input : List ℕ
  pub output : List ℕ

pub data FrontendError : Type 0 where
  frame_too_small frame_too_large short_request : ℕ → FrontendError
  unexpected_eof : FrontendError
  protocol : LegacyProtocolError → FrontendError

-- A protocol error, passed on by `?`.
abbrev pub or_protocol {ℓ} : {A : Type ℓ} → Result A LegacyProtocolError → Result A FrontendError
or_protocol (ok a) = ok a
or_protocol (err e) = err (protocol e)
or_protocol panic = panic

-- `bytes[12]` to `bytes[19]`, read as a big-endian word
unfoldable pub decode_identify_remote_server_id : List ℕ → Option ℕ
decode_identify_remote_server_id bytes =
    if ltb (length bytes) (busybee_header_size + 16)
    then none
    else some (from_be_bytes (take 8 (drop 12 bytes)))

abbrev pub or_zero : Option ℕ → ℕ
or_zero none = 0
or_zero (some n) = n

-- A request frame with its header and the bytes that the handler is given, from the nonce on.
unfoldable pub request_of_frame : List ℕ → Result (RequestHeader × List ℕ) FrontendError
request_of_frame bytes = do
  fail_if (ltb (length bytes) legacy_request_header_size) (short_request (length bytes))
  header ← or_protocol (decode_request_header (take legacy_request_header_size bytes))
  ok (header, drop (legacy_request_header_size - 8) bytes)

-- One round of the loop in `read_request_frame`: it goes on behind an identify frame, or is done.
pub data Round : Type 0 where
  again : Connection → Round
  done : Result (Option (RequestHeader × List ℕ)) FrontendError → Connection → Round

-- A frame of which the length word was read and all bytes have come in.
unfoldable pub handle_frame : ℕ → ℕ → List ℕ → Connection → Round
handle_frame local_server_id raw_header bytes c =
    if not (bit_and raw_header busybee_header_identify == 0)
    then again (record c {
      output =
          c.output
          ++ encode_identify_frame local_server_id
              (or_zero (decode_identify_remote_server_id bytes));
    })
    else done (request_of_frame bytes >>= λ request. ok (some request)) c

unfoldable pub read_round : ℕ → Connection → Round
unfolding handle_frame
read_round local_server_id c =
    let prefix = take busybee_header_size c.input in
    let rest = drop busybee_header_size c.input in
    let raw_header = from_be_bytes prefix in
    let total_len = bit_and raw_header 0x00ff_ffff in
    if ltb (length c.input) busybee_header_size
    then done (ok none) (record c { input = [] })
    else if ltb total_len busybee_header_size
    then done (err (frame_too_small total_len)) (record c { input = rest })
    else if ltb max_busybee_frame_size total_len
    then done (err (frame_too_large total_len)) (record c { input = rest })
    else if ltb (length rest) (total_len - busybee_header_size)
    then done (err unexpected_eof) (record c { input = [] })
    else handle_frame local_server_id raw_header
        (prefix ++ take (total_len - busybee_header_size) rest)
        (record c { input = drop (total_len - busybee_header_size) rest })

-- The loop, on fuel: `none` means that the fuel ran out.
unfoldable pub read_request_frame :
    ℕ
    → ℕ
    → Connection
    → Option (Result (Option (RequestHeader × List ℕ)) FrontendError × Connection)
read_request_frame zero local_server_id c = none
read_request_frame (suc fuel) local_server_id c = elim (read_round local_server_id c) [
  | again c' ↦ read_request_frame fuel local_server_id c'
  | done r c' ↦ some (r, c')
]

-- `request_once`, from the bytes of the reply on.
unfoldable pub read_response_frame : List ℕ → Result (ResponseHeader × List ℕ) FrontendError
read_response_frame input =
    let prefix = take busybee_header_size input in
    let rest = drop busybee_header_size input in
    let total_len = bit_and (from_be_bytes prefix) 0x00ff_ffff in
    if ltb (length input) busybee_header_size
    then err unexpected_eof
    else if ltb total_len busybee_header_size
    then err (frame_too_small total_len)
    else if ltb max_busybee_frame_size total_len
    then err (frame_too_large total_len)
    else if ltb (length rest) (total_len - busybee_header_size)
    then err unexpected_eof
    else let response = prefix ++ take (total_len - busybee_header_size) rest in
      or_protocol (decode_response_header response) >>= λ header.
      ok (header, drop legacy_response_header_size response)

-- What `serve_connection_with` ends with.
pub data ServeError (E : Type 0) : Type 0 where
  frontend : FrontendError → ServeError E
  handler_error : E → ServeError E

-- The handler is the caller's: it has a state of its own and may fail.
module _ {S E : Type 0}
    (handler : S → RequestHeader → List ℕ → Result (ResponseHeader × List ℕ) E × S) where
  abbrev pub Outcome : Type 0
  Outcome = Result (Unit {0}) (ServeError E) × S × Connection

  -- Behind a request that was answered the loop goes on; `serve` is that loop.
  unfoldable pub answer :
      (S → Connection → Option Outcome)
      → Connection
      → Result (ResponseHeader × List ℕ) E × S
      → Option Outcome
  answer serve c (ok (response, response_body), s) =
      serve s (record c { output = c.output ++ encode_response_frame response response_body })
  answer serve c (err e, s) = some (err (handler_error e), s, c)
  answer serve c (panic, s) = some (panic, s, c)

  unfoldable pub after_read :
      (S → Connection → Option Outcome)
      → S
      → Option (Result (Option (RequestHeader × List ℕ)) FrontendError × Connection)
      → Option Outcome
  unfolding answer
  after_read serve s none = none
  after_read serve s (some (ok none, c)) = some (ok tt, s, c)
  after_read serve s (some (ok (some (header, body)), c)) = answer serve c (handler s header body)
  after_read serve s (some (err e, c)) = some (err (frontend e), s, c)
  after_read serve s (some (panic, c)) = some (panic, s, c)

  unfoldable pub serve_connection_with : ℕ → ℕ → S → Connection → Option Outcome
  unfolding after_read
  serve_connection_with zero local_server_id s c = none
  serve_connection_with (suc fuel) local_server_id s c =
      after_read (serve_connection_with fuel local_server_id) s
        (read_request_frame (suc (length c.input)) local_server_id c)

-- The handler of `serve_once` and `serve_forever`.
abbrev pub mismatch_handler :
    Unit {0} → RequestHeader → List ℕ → Result (ResponseHeader × List ℕ) ⊥ × Unit {0}
mismatch_handler s header body = (ok (config_mismatch_response header, []), s)
