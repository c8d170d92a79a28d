-- ===== src/LegacyProtocol/Named/Values.antt =====
-- One value reads back as it was written.
use hyperdex_rs.Prelude.{
  ℕ, ◌+◌, ◌%◌, ◌<◌, ◌≡◌, refl, ap, List, [], ◌∷◌, ◌++◌, true, false, arith, length, length-append,
  le→ltb, append-nil, ◌∙◌,
}
use hyperdex_rs.Prelude.{ok}
use hyperdex_rs.Prelude.Words.{
  u32_mod, u64_mod, to_be_bytes, length-to_be_bytes, from_be_bytes-to_be_bytes,
}
use hyperdex_rs.Prelude.Slices.{At, At-left, At-step, At-all, At-length, slice-At, index-At}
use hyperdex_rs.Prelude.Utf8.{is_utf8, from_utf8}
use hyperdex_rs.LegacyProtocol.Read.{read_array-At, read_u32_be-At}
use hyperdex_rs.LegacyProtocol.Named.{
  GetValue, null, bool, int, string, u8_from, encode_value_into, value_of_kind, decode_value,
}

-- The number of the kind, and the bytes behind the length.
abbrev pub kind : GetValue → ℕ
kind null = 0
kind (bool v) = 1
kind (int v) = 2
kind (GetValue.bytes v) = 3
kind (string v) = 4

abbrev pub payload : GetValue → List ℕ
payload null = []
payload (bool v) = u8_from v ∷ []
payload (int v) = to_be_bytes 8 v
payload (GetValue.bytes v) = v
payload (string v) = v

-- An `i64` has 64 bits, a length fits its `u32`, and a string is UTF-8.
abbrev pub IsGetValue : GetValue → Type 0
IsGetValue null = Unit
IsGetValue (bool v) = Unit
IsGetValue (int v) = v < u64_mod
IsGetValue (GetValue.bytes v) = length v < u32_mod
IsGetValue (string v) = (length v < u32_mod) × (is_utf8 v ≡ true)

pub small_mod : (n m : ℕ) → n < m → n % m ≡ n
small_mod n m h = grind arith

encode_value_into-parts :
    (v : GetValue)
    → IsGetValue v
    → encode_value_into v ≡ kind v ∷ (to_be_bytes 4 (length (payload v)) ++ payload v)
unfolding encode_value_into
encode_value_into-parts null h = rw append-nil
encode_value_into-parts (bool v) h = refl
encode_value_into-parts (int v) h = rw length-to_be_bytes
encode_value_into-parts (GetValue.bytes v) h = rw (small_mod (length v) u32_mod h)
encode_value_into-parts (string v) h = rw (small_mod (length v) u32_mod h.0)

payload-fits : (v : GetValue) → IsGetValue v → length (payload v) < u32_mod
payload-fits null h = omega arith
payload-fits (bool v) h = omega arith
payload-fits (int v) h = omega (arith, length-to_be_bytes 8 v)
payload-fits (GetValue.bytes v) h = h
payload-fits (string v) h = h.0

value_of_kind-payload : (v : GetValue) → IsGetValue v → value_of_kind (kind v) (payload v) ≡ ok v
unfolding value_of_kind from_utf8
value_of_kind-payload null h = refl
value_of_kind-payload (bool true) h = refl
value_of_kind-payload (bool false) h = refl
value_of_kind-payload (int v) h = rw (
  length-to_be_bytes 8 v,
  read_array-At (to_be_bytes 8 v) (At-all (to_be_bytes 8 v)) (omega (arith, length-to_be_bytes 8 v))
      8 (length-to_be_bytes 8 v),
  from_be_bytes-to_be_bytes 8 v h,
)
value_of_kind-payload (GetValue.bytes v) h = refl
value_of_kind-payload (string v) h = rw h.1

pub length-encode_value_into :
    (v : GetValue) → IsGetValue v → length (encode_value_into v) ≡ length (payload v) + 5
length-encode_value_into v h = rw encode_value_into-parts (
    omega (
      arith,
      length-append (to_be_bytes 4 (length (payload v))) (payload v),
      length-to_be_bytes 4 (length (payload v)),
    ))

decode_parts :
    (bytes : List ℕ) (offset : ℕ) (v : GetValue) (rest : List ℕ)
    → At bytes offset (kind v ∷ (to_be_bytes 4 (length (payload v)) ++ payload v)) rest
    → length bytes < u64_mod
    → IsGetValue v
    → decode_value bytes offset ≡ ok (v, offset + 5 + length (payload v))
unfolding decode_value
decode_parts bytes offset v rest at small good =
    let word = to_be_bytes 4 (length (payload v)) in
    let body = payload v in
    let at1 = At-step (kind v ∷ []) (word ++ body) 1 refl at in
    let at5 =
      At-step (kind v ∷ word) body 5 (omega (arith, length-to_be_bytes 4 (length (payload v))))
        at in
    rw (
      index-At at,
      read_u32_be-At (length body) (At-left word body at1) small (payload-fits v good),
      le→ltb (length bytes) (offset + 5 + length body) (omega (arith, At-length at5)),
      slice-At at5,
      value_of_kind-payload v good,
    )

pub decode_value-At :
    (bytes : List ℕ) (offset : ℕ) (v : GetValue) (rest : List ℕ)
    → At bytes offset (encode_value_into v) rest
    → length bytes < u64_mod
    → IsGetValue v
    → decode_value bytes offset ≡ ok (v, offset + length (encode_value_into v))
decode_value-At bytes offset v rest at small good =
    decode_parts bytes offset v rest (rw (encode_value_into-parts v good) at at) small good
    ∙ ap (λ (n : ℕ). ok (v, n)) (omega (arith, length-encode_value_into v good))
