-- ===== src/LegacyProtocol/Protocol/RoundTrip.antt =====
-- Every binary message body reads back as it was written.
use hyperdex_rs.Prelude.{
  ℕ, ◌+◌, ◌^◌, ◌<◌, ◌≡◌, refl, ap, subst, ◌⊎◌, inl, inr, Bool-cases, List, [], ◌∷◌, ◌++◌, Bool,
  true, false, not, bit_and, ◌==◌, append-nil, arith, length, length-append, le→ltb, All, ==_refl,
}
use hyperdex_rs.Prelude.{ok}
use hyperdex_rs.Prelude.Words.{
  u64_mod, u16_mod, to_be_bytes, length-to_be_bytes, from_be_bytes-to_be_bytes,
}
use hyperdex_rs.Prelude.Slices.{
  At, At-left, At-right, At-whole, At-end, At-all, At-step, At-length, slice_from-At, index-At,
}
use hyperdex_rs.LegacyProtocol.Read.{read_array-At, read_u16_be-At, read_u64_be-At}
use hyperdex_rs.LegacyProtocol.Protocol.{
  ProtocolAttributeCheck, encode_protocol_slice, encode_protocol_slices, encode_protocol_checks,
  encode_protocol_funcalls, decode_protocol_slice, decode_protocol_checks,
}
use hyperdex_rs.LegacyProtocol.Protocol.Items.{IsCheck, IsFuncall, decode_protocol_slice-encode}
use hyperdex_rs.LegacyProtocol.Protocol.Lists.{
  decode_protocol_slices-encode, decode_protocol_checks-encode, decode_protocol_funcalls-encode,
}
use hyperdex_rs.LegacyProtocol.Protocol.Messages.{
  ProtocolKeyChange, ProtocolSearchStart, ProtocolGetResponse, ProtocolSearchItem, atomic_flags,
  encode_protocol_atomic_request, decode_protocol_atomic_request, encode_protocol_get_request,
  decode_protocol_get_request, encode_protocol_count_request, decode_protocol_count_request,
  encode_protocol_search_start, decode_protocol_search_start, encode_protocol_search_item,
  decode_protocol_search_item, decode_exact_word, encode_protocol_search_continue,
  decode_protocol_search_continue, encode_protocol_count_response, decode_protocol_count_response,
  encode_protocol_atomic_response, decode_protocol_atomic_response, encode_protocol_get_response,
  decode_protocol_get_response,
}

pub record IsKeyChange (change : ProtocolKeyChange) : Type 0 where
  pub checks : All IsCheck change.checks
  pub funcalls : All IsFuncall change.funcalls
  pub fits : length (encode_protocol_atomic_request change) < u64_mod

-- What stands inside a buffer is no longer than it.
inside :
    {bytes : List ℕ} {offset : ℕ} {xs rest : List ℕ}
    → At bytes offset xs rest
    → length bytes < u64_mod
    → length (xs ++ rest) < u64_mod
inside {bytes} {offset} {xs} {rest} at small = omega (arith, At-length at, length-append xs rest)

end-At :
    {bytes : List ℕ} {offset : ℕ} {xs : List ℕ}
    → At bytes offset xs []
    → offset + length xs ≡ length bytes
end-At at = omega (arith, At-length at)

-- The three flags come out of the flag byte as they went in.
flags_read :
    (e n f : Bool)
    → ((bit_and (atomic_flags e n f) 0x80 == 0) ≡ e)
      × (not (bit_and (atomic_flags e n f) 0x01 == 0) ≡ n)
      × (not (bit_and (atomic_flags e n f) 0x02 == 0) ≡ f)
unfolding atomic_flags
flags_read true true true = (refl, refl, refl)
flags_read true true false = (refl, refl, refl)
flags_read true false true = (refl, refl, refl)
flags_read true false false = (refl, refl, refl)
flags_read false true true = (refl, refl, refl)
flags_read false true false = (refl, refl, refl)
flags_read false false true = (refl, refl, refl)
flags_read false false false = (refl, refl, refl)

-- An atomic request whose attribute numbers and datatypes fit 16 bits, in a body below 2^64 bytes,
-- reads back whole: key, the three flags, checks and function calls.
pub decode_protocol_atomic_request-encode :
    (change : ProtocolKeyChange)
    → IsKeyChange change
    → decode_protocol_atomic_request (encode_protocol_atomic_request change) ≡ ok change
unfolding decode_protocol_atomic_request encode_protocol_atomic_request
decode_protocol_atomic_request-encode change good =
    let key = encode_protocol_slice change.key in
    let checks = encode_protocol_checks change.checks in
    let calls = encode_protocol_funcalls change.funcalls in
    let flags = atomic_flags change.erase change.fail_if_not_found change.fail_if_found in
    let bytes = key ++ (flags ∷ (checks ++ calls)) in
    let at0 = At-end key (flags ∷ (checks ++ calls)) in
    let at1 = At-step (flags ∷ []) (checks ++ calls) 1 refl at0 in
    let at2 = At-right checks calls at1 in
    let at3 = At-left checks calls at1 in
    let (erase, not_found, found) =
      flags_read change.erase change.fail_if_not_found change.fail_if_found in
    rw (
      decode_protocol_slice-encode change.key (flags ∷ (checks ++ calls)) good.fits,
      le→ltb (length bytes) (length key + 1) (omega (arith, At-length at1)),
      index-At at0,
      slice_from-At at3,
      decode_protocol_checks-encode change.checks (calls ++ []) good.checks (inside at3 good.fits),
      slice_from-At at2,
      decode_protocol_funcalls-encode change.funcalls [] good.funcalls (inside at2 good.fits),
      end-At at2,
      ==_refl (length bytes),
      erase,
      not_found,
      found,
    )

-- A get request in a body below 2^64 bytes reads back its key.
pub decode_protocol_get_request-encode :
    (key : List ℕ)
    → length (encode_protocol_get_request key) < u64_mod
    → decode_protocol_get_request (encode_protocol_get_request key) ≡ ok key
unfolding decode_protocol_get_request encode_protocol_get_request
decode_protocol_get_request-encode key small =
    let slice = encode_protocol_slice key in
    let at : decode_protocol_slice slice ≡ ok (key, length slice) =
      rw append-nil at (decode_protocol_slice-encode key [] (rw append-nil small)) in
    rw (at, ==_refl (length slice))

-- A count request reads back its checks, if their numbers fit 16 bits and the body is below 2^64
-- bytes.
pub decode_protocol_count_request-encode :
    (checks : List ProtocolAttributeCheck)
    → All IsCheck checks
    → length (encode_protocol_count_request checks) < u64_mod
    → decode_protocol_count_request (encode_protocol_count_request checks) ≡ ok checks
unfolding decode_protocol_count_request encode_protocol_count_request
decode_protocol_count_request-encode checks good small =
    let body = encode_protocol_checks checks in
    let at : decode_protocol_checks body ≡ ok (checks, length body) =
      rw append-nil at (decode_protocol_checks-encode checks [] good (rw append-nil small)) in
    rw (at, ==_refl (length body))

pub record IsSearchStart (request : ProtocolSearchStart) : Type 0 where
  pub search_id : request.search_id < u64_mod
  pub checks : All IsCheck request.checks
  pub fits : length (encode_protocol_search_start request) < u64_mod

-- A search start reads back its identifier and its checks, if they fit 64 and 16 bits and the body
-- is below 2^64 bytes.
pub decode_protocol_search_start-encode :
    (request : ProtocolSearchStart)
    → IsSearchStart request
    → decode_protocol_search_start (encode_protocol_search_start request) ≡ ok request
unfolding decode_protocol_search_start encode_protocol_search_start
decode_protocol_search_start-encode request good =
    let word = to_be_bytes 8 request.search_id in
    let checks = encode_protocol_checks request.checks in
    let width = length-to_be_bytes 8 request.search_id in
    let at0 = At-whole word checks in
    let at1 : At (word ++ checks) 8 checks [] =
      subst (λ (n : ℕ). At (word ++ checks) n checks []) width (At-end word checks) in
    rw (
      le→ltb (length (word ++ checks)) 8 (omega (arith, At-length at1)),
      read_u64_be-At request.search_id at0 good.fits good.search_id,
      slice_from-At at1,
      decode_protocol_checks-encode request.checks [] good.checks (inside at1 good.fits),
      end-At at1,
      ==_refl (length (word ++ checks)),
    )

-- A search item in a body below 2^64 bytes reads back its key and its values.
pub decode_protocol_search_item-encode :
    (item : ProtocolSearchItem)
    → length (encode_protocol_search_item item) < u64_mod
    → decode_protocol_search_item (encode_protocol_search_item item) ≡ ok item
unfolding decode_protocol_search_item encode_protocol_search_item
decode_protocol_search_item-encode item small =
    let key = encode_protocol_slice item.key in
    let values = encode_protocol_slices item.values in
    let at = At-end key values in
    rw (
      decode_protocol_slice-encode item.key values small,
      slice_from-At at,
      decode_protocol_slices-encode item.values [] (inside at small),
      end-At at,
      ==_refl (length (key ++ values)),
    )

-- Bodies of one word: a search continuation, a count and an atomic status read back.
decode_exact_word-encode :
    (width v : ℕ)
    → width < u64_mod
    → v < 256 ^ width
    → decode_exact_word width (to_be_bytes width v) ≡ ok v
unfolding decode_exact_word
decode_exact_word-encode width v small h = rw (
  length-to_be_bytes width v,
  ==_refl width,
  read_array-At (to_be_bytes width v) (At-all (to_be_bytes width v))
      (omega (arith, length-to_be_bytes width v)) width (length-to_be_bytes width v),
  from_be_bytes-to_be_bytes width v h,
)

-- The bodies that are one word read back: a search identifier and a count below 2^64 and a status
-- below 2^16.
pub decode_protocol_words-encode :
    (id count status : ℕ)
    → id < u64_mod
    → count < u64_mod
    → status < u16_mod
    → (decode_protocol_search_continue (encode_protocol_search_continue id) ≡ ok id)
      × (decode_protocol_count_response (encode_protocol_count_response count) ≡ ok count)
      × (decode_protocol_atomic_response (encode_protocol_atomic_response status) ≡ ok status)
unfolding decode_protocol_search_continue encode_protocol_search_continue
    decode_protocol_count_response encode_protocol_count_response decode_protocol_atomic_response
    encode_protocol_atomic_response
decode_protocol_words-encode id count status hi hc hs = (
  decode_exact_word-encode 8 id (omega arith) hi,
  decode_exact_word-encode 8 count (omega arith) hc,
  decode_exact_word-encode 2 status (omega arith) hs,
)

-- Only a successful response has values on the wire.
pub record IsGetResponse (response : ProtocolGetResponse) : Type 0 where
  pub status : response.status < u16_mod
  pub values : (response.status ≡ 8320) ⊎ (response.values ≡ [])
  pub fits : length (encode_protocol_get_response response) < u64_mod

-- A get response reads back its status and its values, if the status fits 16 bits, there are values
-- only with the status for success, and the body is below 2^64 bytes.
pub decode_protocol_get_response-encode :
    (response : ProtocolGetResponse)
    → IsGetResponse response
    → decode_protocol_get_response (encode_protocol_get_response response) ≡ ok response
unfolding decode_protocol_get_response encode_protocol_get_response
decode_protocol_get_response-encode response good = elim (Bool-cases (response.status == 8320)) [
  | inl found ↦
      let word = to_be_bytes 2 response.status in
      let values = encode_protocol_slices response.values in
      let fits : length (word ++ values) < u64_mod = rw found at good.fits in
      let at : At (word ++ values) 2 values [] =
        subst (λ (n : ℕ). At (word ++ values) n values []) (length-to_be_bytes 2 response.status)
          (At-end word values) in
      rw (
        found,
        le→ltb (length (word ++ values)) 2 (omega (arith, At-length at)),
        read_u16_be-At response.status (At-whole word values) fits good.status,
        found,
        slice_from-At at,
        decode_protocol_slices-encode response.values [] (inside at fits),
        end-At at,
        ==_refl (length (word ++ values)),
      )
  | inr missing ↦
      let word = to_be_bytes 2 response.status in
      let width = length-to_be_bytes 2 response.status in
      let none_left : [] ≡ response.values = ground (arith, good.values) in
      rw
        (
          missing,
          append-nil,
          le→ltb (length word) 2 (omega (arith, width)),
          read_u16_be-At response.status (At-all word) (omega (arith, width)) good.status,
          missing,
          width,
        )
        (ap (λ (vs : List (List ℕ)). ok (record { status = response.status; values = vs }))
          none_left)
]
