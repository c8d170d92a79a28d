-- ===== src/LegacyProtocol/Named.antt =====
-- The bodies that carry attribute names, crates/legacy-protocol/src/lib.rs: their values, named
-- values, checks and function calls. A string is a list of bytes that `is_utf8` accepts; an `i64` is
-- the word of 64 bits that stands for it in two's complement.
pub mod Bodies
pub mod Values
pub mod Items
pub mod Counted
pub mod RoundTrip
pub mod SmallBodies
pub mod Together
pub mod Safety
pub mod Panic
mod Examples
use hyperdex_rs.Prelude.{
  ℕ, ◌+◌, ◌%◌, List, [], ◌∷◌, ◌++◌, Option, none, some, Bool, not, ◌==◌, ltb, if◌then◌else◌, length,
}
use hyperdex_rs.Prelude.{Result, ok, err, ok_or, fail_if, ◌>>=◌, ◌>>◌}
use hyperdex_rs.Prelude.Words.{u16_mod, u32_mod, to_be_bytes, from_be_bytes}
use hyperdex_rs.Prelude.Slices.{slice, index}
use hyperdex_rs.Prelude.Utf8.{from_utf8}
use hyperdex_rs.LegacyProtocol.Codes.{
  LegacyProtocolError, LegacyPredicate, LegacyFuncallName, short_buffer, invalid_utf8,
  unknown_value_kind, predicate_code, funcall_code, decode_predicate, decode_funcall_name,
}
use hyperdex_rs.LegacyProtocol.Read.{read_array, read_u16_be, read_u32_be}
use hyperdex_rs.LegacyProtocol.Many.{Decoder, decode_many, encode_many}

pub data GetValue : Type 0 where
  null : GetValue
  bool : Bool → GetValue
  int : ℕ → GetValue
  bytes string : List ℕ → GetValue

pub record GetAttribute : Type 0 where
  pub name : List ℕ
  pub value : GetValue

pub record LegacyCheck : Type 0 where
  pub attribute : List ℕ
  pub predicate : LegacyPredicate
  pub value : GetValue

pub record LegacyFuncall : Type 0 where
  pub attribute : List ℕ
  pub name : LegacyFuncallName
  pub arg1 : GetValue
  pub arg2 : Option GetValue

-- `u8::from(bool)`
abbrev pub u8_from : Bool → ℕ
u8_from b = if b then 1 else 0

unfoldable pub encode_value_into : GetValue → List ℕ
encode_value_into null = 0 ∷ to_be_bytes 4 0
encode_value_into (bool v) = 1 ∷ (to_be_bytes 4 1 ++ (u8_from v ∷ []))
encode_value_into (int v) = 2 ∷ (to_be_bytes 4 8 ++ to_be_bytes 8 v)
encode_value_into (bytes v) = 3 ∷ (to_be_bytes 4 (length v % u32_mod) ++ v)
encode_value_into (string v) = 4 ∷ (to_be_bytes 4 (length v % u32_mod) ++ v)

unfoldable pub encode_named_value_into : List ℕ → GetValue → List ℕ
encode_named_value_into name value =
    to_be_bytes 2 (length name % u16_mod) ++ (name ++ encode_value_into value)

unfoldable pub encode_attribute : GetAttribute → List ℕ
encode_attribute attr = encode_named_value_into attr.name attr.value

unfoldable pub encode_attributes_into : List GetAttribute → List ℕ
encode_attributes_into attributes = encode_many encode_attribute attributes

unfoldable pub encode_check : LegacyCheck → List ℕ
encode_check check =
    encode_named_value_into check.attribute check.value
    ++ to_be_bytes 2 (predicate_code check.predicate)

unfoldable pub encode_checks_into : List LegacyCheck → List ℕ
encode_checks_into checks = encode_many encode_check checks

-- `body.push(u8::from(funcall.arg2.is_some())); if let Some(arg2) = …`
unfoldable pub encode_arg2 : Option GetValue → List ℕ
encode_arg2 none = u8_from Bool.false ∷ []
encode_arg2 (some arg2) = u8_from Bool.true ∷ encode_value_into arg2

unfoldable pub encode_funcall : LegacyFuncall → List ℕ
encode_funcall funcall =
    funcall_code funcall.name
    ∷ (encode_named_value_into funcall.attribute funcall.arg1 ++ encode_arg2 funcall.arg2)

unfoldable pub encode_funcalls_into : List LegacyFuncall → List ℕ
encode_funcalls_into funcalls = encode_many encode_funcall funcalls

-- `value_bytes.first().copied().unwrap_or(0)`
abbrev pub first_or_zero : List ℕ → ℕ
first_or_zero [] = 0
first_or_zero (b ∷ buffer) = b

-- The `match kind` of `decode_value`.
unfoldable pub value_of_kind : ℕ → List ℕ → Result GetValue LegacyProtocolError
value_of_kind kind value_bytes =
    if kind == 0
    then ok null
    else if kind == 1
    then ok (bool (not (first_or_zero value_bytes == 0)))
    else if kind == 2
    then (if not (length value_bytes == 8)
        then err short_buffer
        else (do array ← read_array value_bytes 0 8; ok (int (from_be_bytes array))))
    else if kind == 3
    then ok (bytes value_bytes)
    else if kind == 4
    then (do text ← ok_or (from_utf8 value_bytes) invalid_utf8; ok (string text))
    else err (unknown_value_kind kind)

unfoldable pub decode_value : Decoder GetValue
decode_value buffer offset = do
  kind ← index buffer offset
  value_len ← read_u32_be buffer (offset + 1)
  fail_if (ltb (length buffer) (offset + 5 + value_len)) short_buffer
  value_bytes ← slice buffer (offset + 5) (offset + 5 + value_len)
  value ← value_of_kind kind value_bytes
  ok (value, offset + 5 + value_len)

unfoldable pub decode_named_value : Decoder GetAttribute
decode_named_value buffer offset = do
  fail_if (ltb (length buffer) (offset + 2)) short_buffer
  name_len ← read_u16_be buffer offset
  fail_if (ltb (length buffer) (offset + 2 + name_len + 5)) short_buffer
  name_bytes ← slice buffer (offset + 2) (offset + 2 + name_len)
  name ← ok_or (from_utf8 name_bytes) invalid_utf8
  (value, next_offset) ← decode_value buffer (offset + 2 + name_len)
  ok (record { name = name; value = value }, next_offset)

unfoldable pub decode_attributes : ℕ → Decoder (List GetAttribute)
decode_attributes attr_count buffer offset = decode_many decode_named_value attr_count buffer offset

-- The body of the loop in `decode_checks`.
unfoldable pub decode_check : Decoder LegacyCheck
decode_check buffer offset = do
  (named, offset) ← decode_named_value buffer offset
  fail_if (ltb (length buffer) (offset + 2)) short_buffer
  code ← read_u16_be buffer offset
  predicate ← decode_predicate code
  ok (record { attribute = named.name; predicate = predicate; value = named.value }, offset + 2)

unfoldable pub decode_checks : ℕ → Decoder (List LegacyCheck)
decode_checks check_count buffer offset = decode_many decode_check check_count buffer offset

-- The second argument of a function call, behind the byte that says whether there is one.
unfoldable pub decode_arg2 : Bool → Decoder (Option GetValue)
decode_arg2 has_arg2 buffer offset =
    if has_arg2
    then (do (value, next_offset) ← decode_value buffer offset; ok (some value, next_offset))
    else ok (none, offset)

-- The body of the loop in `decode_funcalls`.
unfoldable pub decode_funcall : Decoder LegacyFuncall
decode_funcall buffer offset = do
  fail_if (ltb (length buffer) (offset + 1)) short_buffer
  code ← index buffer offset
  name ← decode_funcall_name code
  (named, offset) ← decode_named_value buffer (offset + 1)
  fail_if (ltb (length buffer) (offset + 1)) short_buffer
  flag ← index buffer offset
  (arg2, offset) ← decode_arg2 (not (flag == 0)) buffer (offset + 1)
  ok (record { attribute = named.name; name = name; arg1 = named.value; arg2 = arg2 }, offset)

unfoldable pub decode_funcalls : ℕ → Decoder (List LegacyFuncall)
decode_funcalls funcall_count buffer offset = decode_many decode_funcall funcall_count buffer offset
