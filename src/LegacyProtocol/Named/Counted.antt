-- ===== src/LegacyProtocol/Named/Counted.antt =====
-- Fields behind a count of 16 bits: texts, attributes, checks and function calls.
use hyperdex_rs.Prelude.{ℕ, ◌+◌, ◌<◌, ◌≡◌, List, [], ◌++◌, arith, length, All}
use hyperdex_rs.Prelude.{ok}
use hyperdex_rs.Prelude.Words.{u16_mod, u64_mod, to_be_bytes, length-to_be_bytes}
use hyperdex_rs.Prelude.Slices.{At, At-left, At-step, At-length}
use hyperdex_rs.LegacyProtocol.Read.{read_u16_be, read_u16_be-At}
use hyperdex_rs.LegacyProtocol.Many.{decode_many-reads}
use hyperdex_rs.LegacyProtocol.Named.{
  GetAttribute, LegacyCheck, LegacyFuncall, encode_attribute, encode_check, encode_funcall,
  encode_attributes_into, encode_checks_into, encode_funcalls_into, decode_named_value,
  decode_check, decode_funcall, decode_attributes, decode_checks, decode_funcalls,
}
use hyperdex_rs.LegacyProtocol.Named.Values.{small_mod}
use hyperdex_rs.LegacyProtocol.Named.Items.{
  IsAttribute, IsLegacyCheck, IsLegacyFuncall, decode_named_value-Reads, decode_check-Reads,
  decode_funcall-Reads,
}
use hyperdex_rs.LegacyProtocol.Named.Bodies.{u16_length}

pub end-At :
    {bytes : List ℕ} {offset : ℕ} {xs : List ℕ}
    → At bytes offset xs []
    → offset + length xs ≡ length bytes
end-At at = omega (arith, At-length at)

-- A `u16` length, and the text or list behind it.
module _ {bytes : List ℕ} {offset : ℕ} {rest : List ℕ} (small : length bytes < u64_mod) where
  pub length-At :
      {A : Type 0} (xs : List A) (tail : List ℕ)
      → length xs < u16_mod
      → At bytes offset (u16_length xs ++ tail) rest
      → (read_u16_be bytes offset ≡ ok (length xs)) × At bytes (offset + 2) tail rest
  length-At xs tail h at =
      let fits = small_mod (length xs) u16_mod h in
      let at' : At bytes offset (to_be_bytes 2 (length xs) ++ tail) rest = rw fits at at in
      (
        read_u16_be-At (length xs) (At-left (to_be_bytes 2 (length xs)) tail at') small h,
        At-step (to_be_bytes 2 (length xs)) tail 2 (length-to_be_bytes 2 (length xs)) at',
      )

  pub attributes-At :
      (xs : List GetAttribute)
      → All IsAttribute xs
      → At bytes offset (encode_attributes_into xs) rest
      → decode_attributes (length xs) bytes offset
        ≡ ok (xs, offset + length (encode_attributes_into xs))
  unfolding decode_attributes encode_attributes_into
  attributes-At xs good at =
      decode_many-reads encode_attribute decode_named_value IsAttribute decode_named_value-Reads xs
        bytes offset rest at small good

  pub checks-At :
      (xs : List LegacyCheck)
      → All IsLegacyCheck xs
      → At bytes offset (encode_checks_into xs) rest
      → decode_checks (length xs) bytes offset ≡ ok (xs, offset + length (encode_checks_into xs))
  unfolding decode_checks encode_checks_into
  checks-At xs good at =
      decode_many-reads encode_check decode_check IsLegacyCheck decode_check-Reads xs bytes offset
        rest at small good

  pub funcalls-At :
      (xs : List LegacyFuncall)
      → All IsLegacyFuncall xs
      → At bytes offset (encode_funcalls_into xs) rest
      → decode_funcalls (length xs) bytes offset
        ≡ ok (xs, offset + length (encode_funcalls_into xs))
  unfolding decode_funcalls encode_funcalls_into
  funcalls-At xs good at =
      decode_many-reads encode_funcall decode_funcall IsLegacyFuncall decode_funcall-Reads xs bytes
        offset rest at small good
