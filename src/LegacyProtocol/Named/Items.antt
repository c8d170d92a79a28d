-- ===== src/LegacyProtocol/Named/Items.antt =====
-- A named value, a check and a function call read back as they were written.
use hyperdex_rs.Prelude.{
  ℕ, ◌+◌, ◌<◌, ◌≤◌, ◌≡◌, refl, ap, List, [], ◌∷◌, ◌++◌, Option, none, some, true, not, ◌==◌, arith,
  length, length-append, le→ltb,
}
use hyperdex_rs.Prelude.{ok}
use hyperdex_rs.Prelude.Words.{u16_mod, u64_mod, to_be_bytes, length-to_be_bytes}
use hyperdex_rs.Prelude.Slices.{
  At, At-left, At-right, At-step, At-length, slice-At, index-At, index,
}
use hyperdex_rs.Prelude.Utf8.{is_utf8, from_utf8}
use hyperdex_rs.LegacyProtocol.Codes.{LegacyProtocolError, predicate_code, funcall_code}
use hyperdex_rs.LegacyProtocol.Codes.Exact.{
  predicate_code-lt, decode_predicate-code, decode_funcall_name-code,
}
use hyperdex_rs.LegacyProtocol.Read.{read_u16_be-At}
use hyperdex_rs.LegacyProtocol.Many.{Reads}
use hyperdex_rs.LegacyProtocol.Named.{
  GetValue, GetAttribute, LegacyCheck, LegacyFuncall, encode_value_into, encode_named_value_into,
  encode_attribute, encode_check, encode_funcall, encode_arg2, decode_named_value, decode_check,
  decode_funcall, decode_arg2,
}
use hyperdex_rs.LegacyProtocol.Named.Values.{
  IsGetValue, decode_value-At, length-encode_value_into, small_mod,
}

-- A name is UTF-8, and its length fits a `u16`.
abbrev pub IsName : List ℕ → Type 0
IsName name = (length name < u16_mod) × (is_utf8 name ≡ true)

pub record IsAttribute (attr : GetAttribute) : Type 0 where
  pub name : IsName attr.name
  pub value : IsGetValue attr.value

pub record IsLegacyCheck (check : LegacyCheck) : Type 0 where
  pub attribute : IsName check.attribute
  pub value : IsGetValue check.value

abbrev pub IsArg2 : Option GetValue → Type 0
IsArg2 none = Unit
IsArg2 (some v) = IsGetValue v

pub record IsLegacyFuncall (call : LegacyFuncall) : Type 0 where
  pub attribute : IsName call.attribute
  pub arg1 : IsGetValue call.arg1
  pub arg2 : IsArg2 call.arg2

encode_arg2_pos : (arg2 : Option GetValue) → 1 ≤ length (encode_arg2 arg2)
unfolding encode_arg2
encode_arg2_pos none = omega arith
encode_arg2_pos (some v) = omega arith

module _ (bytes : List ℕ) (offset : ℕ) (rest : List ℕ) (small : length bytes < u64_mod) where
  pub decode_named_value-At :
      (name : List ℕ) (value : GetValue)
      → At bytes offset (encode_named_value_into name value) rest
      → IsName name
      → IsGetValue value
      → decode_named_value bytes offset
        ≡ ok (
          record { name = name; value = value },
          offset + length (encode_named_value_into name value),
        )
  unfolding decode_named_value encode_named_value_into from_utf8
  decode_named_value-At name value at good fits =
      let word = to_be_bytes 2 (length name) in
      let body = encode_value_into value in
      let at' : At bytes offset (word ++ (name ++ body)) rest =
        rw (small_mod (length name) u16_mod good.0) at at in
      let at2 = At-step word (name ++ body) 2 (length-to_be_bytes 2 (length name)) at' in
      let at3 = At-right name body at2 in
      rw
        (
          small_mod (length name) u16_mod good.0,
          le→ltb (length bytes) (offset + 2) (omega (arith, At-length at2)),
          read_u16_be-At (length name) (At-left word (name ++ body) at') small good.0,
          le→ltb (length bytes) (offset + 2 + length name + 5)
              (omega (arith, At-length at3, length-encode_value_into value fits)),
          slice-At (At-left name body at2),
          good.1,
          decode_value-At bytes (offset + 2 + length name) value rest at3 small fits,
        )
        (ap (λ (n : ℕ). ok (record { name = name; value = value }, n))
          (omega (
            arith,
            length-append word (name ++ body),
            length-append name body,
            length-to_be_bytes 2 (length name),
          )))

module _ (bytes : List ℕ) (offset : ℕ) (rest : List ℕ) (small : length bytes < u64_mod) where
  check-At :
      (check : LegacyCheck)
      → At bytes offset (encode_check check) rest
      → IsLegacyCheck check
      → decode_check bytes offset ≡ ok (check, offset + length (encode_check check))
  unfolding decode_check encode_check
  check-At check at good =
      let named = encode_named_value_into check.attribute check.value in
      let word = to_be_bytes 2 (predicate_code check.predicate) in
      let width = length-to_be_bytes 2 (predicate_code check.predicate) in
      let at2 = At-right named word at in
      rw
        (
          decode_named_value-At bytes offset _ small check.attribute check.value
              (At-left named word at) good.attribute good.value,
          le→ltb (length bytes) (offset + length named + 2) (omega (arith, At-length at2, width)),
          read_u16_be-At (predicate_code check.predicate) at2 small
              (predicate_code-lt check.predicate),
          decode_predicate-code check.predicate,
        )
        (ap (λ (n : ℕ). ok (check, n)) (omega (arith, length-append named word, width)))

  attribute-At :
      (attr : GetAttribute)
      → At bytes offset (encode_attribute attr) rest
      → IsAttribute attr
      → decode_named_value bytes offset ≡ ok (attr, offset + length (encode_attribute attr))
  unfolding encode_attribute
  attribute-At attr at good =
      decode_named_value-At bytes offset rest small attr.name attr.value at good.name good.value

  arg2-At :
      (arg2 : Option GetValue)
      → At bytes offset (encode_arg2 arg2) rest
      → IsArg2 arg2
      → (flag : ℕ) × (index {E = LegacyProtocolError} bytes offset ≡ ok flag)
        × (decode_arg2 (not (flag == 0)) bytes (offset + 1)
            ≡ ok (arg2, offset + length (encode_arg2 arg2)))
  unfolding decode_arg2 encode_arg2
  arg2-At none at good = (0, index-At at, refl)
  arg2-At (some v) at good = (
    1,
    index-At at,
    rw
        (decode_value-At bytes (offset + 1) v rest
          (At-step (1 ∷ []) (encode_value_into v) 1 refl at) small good)
        (ap (λ (n : ℕ). ok (some v, n)) (omega arith)),
  )

module _ (bytes : List ℕ) (offset : ℕ) (rest : List ℕ) (small : length bytes < u64_mod) where
  funcall-At :
      (call : LegacyFuncall)
      → At bytes offset (encode_funcall call) rest
      → IsLegacyFuncall call
      → decode_funcall bytes offset ≡ ok (call, offset + length (encode_funcall call))
  unfolding decode_funcall encode_funcall
  funcall-At call at good =
      let named = encode_named_value_into call.attribute call.arg1 in
      let tail = encode_arg2 call.arg2 in
      let at1 = At-step (funcall_code call.name ∷ []) (named ++ tail) 1 refl at in
      let at2 = At-right named tail at1 in
      let (flag, read, decoded) =
        arg2-At bytes (offset + 1 + length named) rest small call.arg2 at2 good.arg2 in
      rw
        (
          le→ltb (length bytes) (offset + 1) (omega (arith, At-length at)),
          index-At at,
          decode_funcall_name-code call.name,
          decode_named_value-At bytes (offset + 1) _ small call.attribute call.arg1
              (At-left named tail at1) good.attribute good.arg1,
          le→ltb (length bytes) (offset + 1 + length named + 1)
              (omega (arith, At-length at2, encode_arg2_pos call.arg2)),
          read,
          decoded,
        )
        (ap (λ (n : ℕ). ok (call, n)) (omega (arith, length-append named tail)))

pub decode_named_value-Reads : Reads encode_attribute decode_named_value IsAttribute
decode_named_value-Reads = record {
  reads = λ bytes offset attr rest at small good. attribute-At bytes offset rest small attr at good;
}

pub decode_check-Reads : Reads encode_check decode_check IsLegacyCheck
decode_check-Reads = record {
  reads = λ bytes offset check rest at small good. check-At bytes offset rest small check at good;
}

pub decode_funcall-Reads : Reads encode_funcall decode_funcall IsLegacyFuncall
decode_funcall-Reads = record {
  reads = λ bytes offset call rest at small good. funcall-At bytes offset rest small call at good;
}
