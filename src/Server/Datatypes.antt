-- ===== src/Server/Datatypes.antt =====
-- The datatypes that the server writes for legacy clients, and what the reader of the administration
-- protocol makes of them.
use hyperdex_rs.Prelude.{ℕ, ◌*◌, ◌≡◌, ◌⊎◌, inl, inr, refl, bit_and, bit_or, Bool, true, false, ◌&&◌}
use hyperdex_rs.Prelude.{Result, ok, err, ◌>>=◌, Ensures, Ensures-bind}
use hyperdex_rs.DataModel.Space.{
  ValueKind, bool, int, float, bytes, string, document, timestamp, list, set, map, TimeUnit,
}
use hyperdex_rs.AdminProtocol.Codes.{unsupported_datatype}
use hyperdex_rs.AdminProtocol.Datatype.{decode_hyperdatatype}
use hyperdex_rs.Server.{
  ConfigError, legacy_hyperdatatype, legacy_primitive_code, legacy_hyperdatatype_list_generic,
  legacy_hyperdatatype_set_generic, legacy_hyperdatatype_map_generic,
}

-- The reader answers with the kind, or the kind is that of bytes and the reader refuses it.
abbrev pub Understood : ValueKind → ℕ → Type 0
Understood kind n =
    (decode_hyperdatatype n ≡ ok kind)
    ⊎ ((kind ≡ bytes) × (decode_hyperdatatype n ≡ err (unsupported_datatype n)))

-- A container's number with the code of its element
pub record Contained (elem : ValueKind) (code : ℕ) : Type 0 where
  pub in_list :
      decode_hyperdatatype (bit_or legacy_hyperdatatype_list_generic code) ≡ ok (list elem)
  pub in_set : decode_hyperdatatype (bit_or legacy_hyperdatatype_set_generic code) ≡ ok (set elem)

legacy_primitive_code-Contained :
    (elem : ValueKind) → Ensures (Contained elem) (legacy_primitive_code elem)
unfolding legacy_primitive_code decode_hyperdatatype hyperdex_rs.LegacyProtocol.Codes.match_code
    hyperdex_rs.AdminProtocol.Datatype.decode_primitive_hyperdatatype
    hyperdex_rs.AdminProtocol.Datatype.decode_container_elem
legacy_primitive_code-Contained bytes = record { in_list = refl; in_set = refl }
legacy_primitive_code-Contained string = record { in_list = refl; in_set = refl }
legacy_primitive_code-Contained int = record { in_list = refl; in_set = refl }
legacy_primitive_code-Contained float = record { in_list = refl; in_set = refl }
legacy_primitive_code-Contained document = record { in_list = refl; in_set = refl }
legacy_primitive_code-Contained bool = tt
legacy_primitive_code-Contained (timestamp unit) = tt
legacy_primitive_code-Contained (list inner) = tt
legacy_primitive_code-Contained (set inner) = tt
legacy_primitive_code-Contained (map inner inner') = tt

-- The number of a map's types with the codes of both
abbrev map_code : ℕ → ℕ → ℕ
map_code key value = bit_or (bit_or legacy_hyperdatatype_map_generic (bit_and key 0x3f * 8)) value

map_code-read :
    (key value : ValueKind)
    → Ensures
        (λ k.
          Ensures
            (λ v. decode_hyperdatatype (map_code k v) ≡ ok (map key value))
            (legacy_primitive_code value))
        (legacy_primitive_code key)
unfolding legacy_primitive_code decode_hyperdatatype hyperdex_rs.LegacyProtocol.Codes.match_code
    hyperdex_rs.AdminProtocol.Datatype.decode_primitive_hyperdatatype
    hyperdex_rs.AdminProtocol.Datatype.decode_container_elem
    hyperdex_rs.AdminProtocol.Datatype.decode_map_types
map_code-read bytes bytes = refl
map_code-read bytes string = refl
map_code-read bytes int = refl
map_code-read bytes float = refl
map_code-read bytes document = refl
map_code-read bytes bool = tt
map_code-read bytes (timestamp unit) = tt
map_code-read bytes (list inner) = tt
map_code-read bytes (set inner) = tt
map_code-read bytes (map inner inner') = tt
map_code-read string bytes = refl
map_code-read string string = refl
map_code-read string int = refl
map_code-read string float = refl
map_code-read string document = refl
map_code-read string bool = tt
map_code-read string (timestamp unit) = tt
map_code-read string (list inner) = tt
map_code-read string (set inner) = tt
map_code-read string (map inner inner') = tt
map_code-read int bytes = refl
map_code-read int string = refl
map_code-read int int = refl
map_code-read int float = refl
map_code-read int document = refl
map_code-read int bool = tt
map_code-read int (timestamp unit) = tt
map_code-read int (list inner) = tt
map_code-read int (set inner) = tt
map_code-read int (map inner inner') = tt
map_code-read float bytes = refl
map_code-read float string = refl
map_code-read float int = refl
map_code-read float float = refl
map_code-read float document = refl
map_code-read float bool = tt
map_code-read float (timestamp unit) = tt
map_code-read float (list inner) = tt
map_code-read float (set inner) = tt
map_code-read float (map inner inner') = tt
map_code-read document bytes = refl
map_code-read document string = refl
map_code-read document int = refl
map_code-read document float = refl
map_code-read document document = refl
map_code-read document bool = tt
map_code-read document (timestamp unit) = tt
map_code-read document (list inner) = tt
map_code-read document (set inner) = tt
map_code-read document (map inner inner') = tt
map_code-read bool value = tt
map_code-read (timestamp unit) value = tt
map_code-read (list elem) value = tt
map_code-read (set elem) value = tt
map_code-read (map elem elem') value = tt

-- The kinds that have a number in the configuration for legacy clients
abbrev pub is_primitive : ValueKind → Bool
is_primitive bytes = true
is_primitive string = true
is_primitive int = true
is_primitive float = true
is_primitive document = true
is_primitive _ = false

abbrev pub has_number : ValueKind → Bool
has_number bool = false
has_number (list elem) = is_primitive elem
has_number (set elem) = is_primitive elem
has_number (map key value) = is_primitive key && is_primitive value
has_number _ = true

abbrev pub is_ok : Result ℕ ConfigError → Bool
is_ok (ok n) = true
is_ok _ = false

legacy_primitive_code-is_primitive :
    (elem : ValueKind) (f : ℕ → ℕ)
    → is_ok (legacy_primitive_code elem >>= λ code. ok (f code)) ≡ is_primitive elem
unfolding legacy_primitive_code
legacy_primitive_code-is_primitive bytes f = refl
legacy_primitive_code-is_primitive string f = refl
legacy_primitive_code-is_primitive int f = refl
legacy_primitive_code-is_primitive float f = refl
legacy_primitive_code-is_primitive document f = refl
legacy_primitive_code-is_primitive bool f = refl
legacy_primitive_code-is_primitive (timestamp unit) f = refl
legacy_primitive_code-is_primitive (list inner) f = refl
legacy_primitive_code-is_primitive (set inner) f = refl
legacy_primitive_code-is_primitive (map inner inner') f = refl

both-is_primitive :
    (key value : ValueKind) (f : ℕ → ℕ → ℕ)
    → is_ok (legacy_primitive_code key >>= λ k. legacy_primitive_code value >>= λ v. ok (f k v))
      ≡ (is_primitive key && is_primitive value)
unfolding legacy_primitive_code
both-is_primitive bytes value f = legacy_primitive_code-is_primitive value (f 9216)
both-is_primitive string value f = legacy_primitive_code-is_primitive value (f 9217)
both-is_primitive int value f = legacy_primitive_code-is_primitive value (f 9218)
both-is_primitive float value f = legacy_primitive_code-is_primitive value (f 9219)
both-is_primitive document value f = legacy_primitive_code-is_primitive value (f 9223)
both-is_primitive bool value f = refl
both-is_primitive (timestamp unit) value f = refl
both-is_primitive (list inner) value f = refl
both-is_primitive (set inner) value f = refl
both-is_primitive (map inner inner') value f = refl

legacy_hyperdatatype-has_number :
    (kind : ValueKind) → is_ok (legacy_hyperdatatype kind) ≡ has_number kind
unfolding legacy_hyperdatatype
legacy_hyperdatatype-has_number bool = refl
legacy_hyperdatatype-has_number int = refl
legacy_hyperdatatype-has_number float = refl
legacy_hyperdatatype-has_number bytes = refl
legacy_hyperdatatype-has_number string = refl
legacy_hyperdatatype-has_number document = refl
legacy_hyperdatatype-has_number (timestamp unit) = refl
legacy_hyperdatatype-has_number (list elem) = legacy_primitive_code-is_primitive elem _
legacy_hyperdatatype-has_number (set elem) = legacy_primitive_code-is_primitive elem _
legacy_hyperdatatype-has_number (map key value) = both-is_primitive key value _

number-Understood : (kind : ValueKind) → Ensures (Understood kind) (legacy_hyperdatatype kind)
unfolding legacy_hyperdatatype decode_hyperdatatype hyperdex_rs.LegacyProtocol.Codes.match_code
    hyperdex_rs.AdminProtocol.Datatype.decode_time_unit
number-Understood bool = tt
number-Understood int = inl refl
number-Understood float = inl refl
number-Understood string = inl refl
number-Understood document = inl refl
number-Understood (timestamp TimeUnit.second) = inl refl
number-Understood (timestamp TimeUnit.minute) = inl refl
number-Understood (timestamp TimeUnit.hour) = inl refl
number-Understood (timestamp TimeUnit.day) = inl refl
number-Understood (timestamp TimeUnit.week) = inl refl
number-Understood (timestamp TimeUnit.month) = inl refl
number-Understood bytes = inr (refl, refl)
number-Understood (list elem) =
    Ensures-bind _ _ (legacy_primitive_code elem) _ (legacy_primitive_code-Contained elem)
      λ code h. inl h.in_list
number-Understood (set elem) =
    Ensures-bind _ _ (legacy_primitive_code elem) _ (legacy_primitive_code-Contained elem)
      λ code h. inl h.in_set
number-Understood (map key value) =
    Ensures-bind _ _ (legacy_primitive_code key) _ (map_code-read key value)
      λ k hk. Ensures-bind _ _ (legacy_primitive_code value) _ hk λ v hv. inl hv

-- The server has a number for every kind but booleans and containers of kinds that are not
-- primitive, for which it gives an error. Every number that it writes for a kind is one that the
-- reader of the administration protocol understands as that kind, except the number for bytes,
-- which it refuses.
pub legacy_hyperdatatype-Understood :
    (kind : ValueKind)
    → (is_ok (legacy_hyperdatatype kind) ≡ has_number kind)
      × Ensures (Understood kind) (legacy_hyperdatatype kind)
legacy_hyperdatatype-Understood kind =
    (legacy_hyperdatatype-has_number kind, number-Understood kind)
