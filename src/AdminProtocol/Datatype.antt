-- ===== src/AdminProtocol/Datatype.antt =====
-- The numbers of the datatypes in crates/hyperdex-admin-protocol/src/lib.rs.
use hyperdex_rs.Prelude.{
  ℕ, ◌/◌, List, [], ◌∷◌, Bool, ◌&&◌, leb, ltb, ◌==◌, if◌then◌else◌, bit_and, bit_or,
}
use hyperdex_rs.Prelude.{Result, ok, err, ok_or, ◌>>=◌}
use hyperdex_rs.DataModel.Space.{
  ValueKind, int, float, bytes, string, document, timestamp, list, set, map, TimeUnit,
}
use hyperdex_rs.LegacyProtocol.Codes.{match_code}
use hyperdex_rs.AdminProtocol.Codes.{AdminError, unsupported_datatype}

abbrev pub hyperdatatype_string : ℕ
hyperdatatype_string = 9217

abbrev pub hyperdatatype_int64 : ℕ
hyperdatatype_int64 = 9218

abbrev pub hyperdatatype_float : ℕ
hyperdatatype_float = 9219

abbrev pub hyperdatatype_document : ℕ
hyperdatatype_document = 9223

abbrev pub hyperdatatype_list_generic : ℕ
hyperdatatype_list_generic = 9280

abbrev pub hyperdatatype_set_generic : ℕ
hyperdatatype_set_generic = 9344

abbrev pub hyperdatatype_map_generic : ℕ
hyperdatatype_map_generic = 9408

abbrev pub hyperdatatype_timestamp_generic : ℕ
hyperdatatype_timestamp_generic = 9472

abbrev pub hyperdatatype_macaroon_secret : ℕ
hyperdatatype_macaroon_secret = 9664

abbrev pub primitive_arms : List (ℕ × ValueKind)
primitive_arms =
    (9216, bytes)
    ∷ (hyperdatatype_string, string)
    ∷ (hyperdatatype_int64, int)
    ∷ (hyperdatatype_float, float)
    ∷ (hyperdatatype_document, document)
    ∷ []

unfoldable pub decode_primitive_hyperdatatype : ℕ → Result ValueKind AdminError
decode_primitive_hyperdatatype datatype =
    ok_or (match_code datatype primitive_arms) (unsupported_datatype datatype)

unfoldable pub decode_container_elem : ℕ → Result ValueKind AdminError
decode_container_elem datatype = decode_primitive_hyperdatatype (bit_and datatype 0x2407)

-- `x >> 3` is `x / 8`.
unfoldable pub decode_map_types : ℕ → Result (ValueKind × ValueKind) AdminError
decode_map_types datatype = do
  key ←
      decode_primitive_hyperdatatype
        (bit_or (bit_and datatype 0x0038 / 8) (bit_and datatype 0x2400))
  value ← decode_primitive_hyperdatatype (bit_and datatype 0x2407)
  ok (key, value)

abbrev pub time_unit_arms : List (ℕ × TimeUnit)
time_unit_arms =
    (9472, TimeUnit.second)
    ∷ (9473, TimeUnit.second)
    ∷ (9474, TimeUnit.minute)
    ∷ (9475, TimeUnit.hour)
    ∷ (9476, TimeUnit.day)
    ∷ (9477, TimeUnit.week)
    ∷ (9478, TimeUnit.month)
    ∷ []

unfoldable pub decode_time_unit : ℕ → Result TimeUnit AdminError
decode_time_unit datatype =
    ok_or (match_code datatype time_unit_arms) (unsupported_datatype datatype)

-- `(lo..hi).contains(&datatype)`
abbrev pub within : ℕ → ℕ → ℕ → Bool
within lo hi datatype = leb lo datatype && ltb datatype hi

unfoldable pub decode_hyperdatatype : ℕ → Result ValueKind AdminError
decode_hyperdatatype datatype =
    if datatype == hyperdatatype_string
    then ok string
    else if datatype == hyperdatatype_int64
    then ok int
    else if datatype == hyperdatatype_float
    then ok float
    else if datatype == hyperdatatype_document
    then ok document
    else if within hyperdatatype_list_generic hyperdatatype_set_generic datatype
    then (do elem ← decode_container_elem datatype; ok (list elem))
    else if within hyperdatatype_set_generic hyperdatatype_map_generic datatype
    then (do elem ← decode_container_elem datatype; ok (set elem))
    else if within hyperdatatype_map_generic hyperdatatype_timestamp_generic datatype
    then (do types ← decode_map_types datatype; ok (map types.0 types.1))
    else if within hyperdatatype_timestamp_generic hyperdatatype_macaroon_secret datatype
    then (do unit ← decode_time_unit datatype; ok (timestamp unit))
    else err (unsupported_datatype datatype)
