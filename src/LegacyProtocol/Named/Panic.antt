-- ===== src/LegacyProtocol/Named/Panic.antt =====
-- The decoder of atomic requests reads a second argument's kind without a check that there is one.
use hyperdex_rs.Prelude.{ℕ, ◌+◌, ◌<◌, ◌≡◌, refl, List, [], ◌∷◌, ◌++◌, arith, length, le→ltb, All}
use hyperdex_rs.Prelude.{panic}
use hyperdex_rs.Prelude.Words.{u16_mod, u64_mod, to_be_bytes}
use hyperdex_rs.Prelude.Slices.{
  At, At-left, At-right, At-step, At-all, At-offset, At-length, slice-At, index-At, index,
}
use hyperdex_rs.LegacyProtocol.Codes.{LegacyProtocolError, LegacyFuncallName, funcall_code}
use hyperdex_rs.LegacyProtocol.Codes.Exact.{decode_funcall_name-code}
use hyperdex_rs.LegacyProtocol.Many.{decode_many}
use hyperdex_rs.LegacyProtocol.Named.{
  GetValue, LegacyCheck, encode_named_value_into, encode_checks_into, decode_value, decode_arg2,
  decode_funcall, decode_funcalls,
}
use hyperdex_rs.LegacyProtocol.Named.Values.{IsGetValue}
use hyperdex_rs.LegacyProtocol.Named.Items.{IsName, IsLegacyCheck, decode_named_value-At}
use hyperdex_rs.LegacyProtocol.Named.Counted.{length-At, checks-At}
use hyperdex_rs.LegacyProtocol.Named.Bodies.{u16_length, decode_atomic_request}

index-end : (bytes : List ℕ) → index {E = LegacyProtocolError} bytes (length bytes) ≡ panic
unfolding index
index-end [] = refl
index-end (b ∷ bytes) = index-end bytes

-- Everything of a function call up to the byte that says that a second argument follows.
abbrev pub cut_funcall : LegacyFuncallName → List ℕ → GetValue → List ℕ
cut_funcall name attribute arg1 =
    funcall_code name ∷ (encode_named_value_into attribute arg1 ++ (1 ∷ []))

-- A request with one function call that ends there.
abbrev pub cut_request :
    List ℕ → ℕ → List LegacyCheck → LegacyFuncallName → List ℕ → GetValue → List ℕ
cut_request key flags checks name attribute arg1 =
    u16_length key
    ++ (key
        ++ (flags
            ∷ (u16_length checks
                ++ (encode_checks_into checks
                    ++ (to_be_bytes 2 1 ++ cut_funcall name attribute arg1)))))

decode_funcall-cut :
    (bytes : List ℕ) (offset : ℕ) (name : LegacyFuncallName) (attribute : List ℕ) (arg1 : GetValue)
    → At bytes offset (cut_funcall name attribute arg1) []
    → length bytes < u64_mod
    → IsName attribute
    → IsGetValue arg1
    → decode_funcall bytes offset ≡ panic
unfolding decode_funcall decode_arg2 decode_value
decode_funcall-cut bytes offset name attribute arg1 at small good fits =
    let named = encode_named_value_into attribute arg1 in
    let at1 = At-step (funcall_code name ∷ []) (named ++ (1 ∷ [])) 1 refl at in
    let at2 = At-right named (1 ∷ []) at1 in
    let end : offset + 1 + length named + 1 ≡ length bytes = omega (arith, At-length at2) in
    rw (
      le→ltb (length bytes) (offset + 1) (omega (arith, At-length at)),
      index-At at,
      decode_funcall_name-code name,
      decode_named_value-At bytes (offset + 1) _ small attribute arg1 (At-left named (1 ∷ []) at1)
          good fits,
      le→ltb (length bytes) (offset + 1 + length named + 1) (omega (arith, At-length at2)),
      index-At at2,
      end,
      index-end bytes,
    )

decode_funcalls-cut :
    (bytes : List ℕ) (offset : ℕ)
    → decode_funcall bytes offset ≡ panic
    → decode_funcalls 1 bytes offset ≡ panic
unfolding decode_funcalls decode_many
decode_funcalls-cut bytes offset h = rw h

-- Cut right behind the byte that announces the second argument of its one function call, an atomic
-- request makes the decoder panic, whatever its key, flags, checks, attribute and first argument
-- are, as far as these fit the widths of their fields, names and strings are UTF-8, and the body is
-- below 2^64 bytes.
pub decode_atomic_request_panics :
    (key : List ℕ) (flags : ℕ) (checks : List LegacyCheck) (name : LegacyFuncallName)
    (attribute : List ℕ) (arg1 : GetValue)
    → length key < u16_mod
    → length checks < u16_mod
    → All IsLegacyCheck checks
    → IsName attribute
    → IsGetValue arg1
    → length (cut_request key flags checks name attribute arg1) < u64_mod
    → decode_atomic_request (cut_request key flags checks name attribute arg1) ≡ panic
unfolding decode_atomic_request
decode_atomic_request_panics key flags checks name attribute arg1 hk hc good named fits small =
    let n = length key in
    let call = cut_funcall name attribute arg1 in
    let t3 = to_be_bytes 2 1 ++ call in
    let body = encode_checks_into checks in
    let t2 = u16_length checks ++ (body ++ t3) in
    let bytes = cut_request key flags checks name attribute arg1 in
    let (key_len, at1) = length-At small key (key ++ (flags ∷ t2)) hk (At-all bytes) in
    let at2 = At-right key (flags ∷ t2) at1 in
    let at3 : At bytes (3 + n) t2 [] =
      At-offset {m = 2 + n + 1} (omega arith) (At-step (flags ∷ []) t2 1 refl at2) in
    let (check_count, at4) = length-At small checks (body ++ t3) hc at3 in
    let at5 : At bytes (5 + n) (body ++ t3) [] = At-offset {m = 3 + n + 2} (omega arith) at4 in
    let at6 = At-right body t3 at5 in
    let one_item : List ℕ = 0 ∷ [] in
    let (funcall_count, at7) = length-At small one_item call (omega arith) at6 in
    rw (
      le→ltb (length bytes) 7 (omega (arith, At-length at7)),
      key_len,
      le→ltb (length bytes) (2 + n + 5) (omega (arith, At-length at7)),
      slice-At (At-left key (flags ∷ t2) at1),
      index-At at2,
      check_count,
      checks-At small checks good (At-left body t3 at5),
      le→ltb (length bytes) (5 + n + length body + 2) (omega (arith, At-length at7)),
      funcall_count,
      decode_funcalls-cut bytes _
          (decode_funcall-cut bytes _ name attribute arg1 at7 small named fits),
    )
