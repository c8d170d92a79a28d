-- ===== src/LegacyProtocol/Codes.antt =====
-- The numeric codes of crates/legacy-protocol/src/lib.rs: message types, return codes, predicates
-- and function names, and the `match` by which each is decoded, its arms in the source's order.
pub mod Exact
use hyperdex_rs.Prelude.{ℕ, List, [], ◌∷◌, Option, none, some, ◌==◌, if◌then◌else◌}
use hyperdex_rs.Prelude.{Result, ok_or}

pub data LegacyProtocolError : Type 0 where
  unknown_message_type unknown_return_code unknown_value_kind : ℕ → LegacyProtocolError
  unknown_predicate unknown_funcall_name : ℕ → LegacyProtocolError
  invalid_varint short_buffer invalid_utf8 : LegacyProtocolError

pub data LegacyMessageType : Type 0 where
  req_get resp_get req_get_partial resp_get_partial req_atomic resp_atomic : LegacyMessageType
  req_search_start req_search_next req_search_stop : LegacyMessageType
  resp_search_item resp_search_done req_sorted_search resp_sorted_search : LegacyMessageType
  req_count resp_count req_search_describe resp_search_describe : LegacyMessageType
  req_group_atomic resp_group_atomic config_mismatch packet_nop : LegacyMessageType

pub data LegacyReturnCode : Type 0 where
  success not_found bad_dimension_spec not_us server_error : LegacyReturnCode
  compare_failed read_only overflow unauthorized : LegacyReturnCode

pub data LegacyPredicate : Type 0 where
  equal less_than less_than_or_equal greater_than_or_equal greater_than : LegacyPredicate

pub data LegacyFuncallName : Type 0 where
  set string_append string_prepend num_add num_sub num_mul num_div num_mod : LegacyFuncallName
  num_and num_or num_xor list_l_push list_r_push set_add set_remove : LegacyFuncallName
  set_intersect set_union map_add map_remove : LegacyFuncallName

-- `message_type as u8`
unfoldable pub message_type_code : LegacyMessageType → ℕ
message_type_code req_get = 8
message_type_code resp_get = 9
message_type_code req_get_partial = 10
message_type_code resp_get_partial = 11
message_type_code req_atomic = 16
message_type_code resp_atomic = 17
message_type_code req_search_start = 32
message_type_code req_search_next = 33
message_type_code req_search_stop = 34
message_type_code resp_search_item = 35
message_type_code resp_search_done = 36
message_type_code req_sorted_search = 40
message_type_code resp_sorted_search = 41
message_type_code req_count = 50
message_type_code resp_count = 51
message_type_code req_search_describe = 52
message_type_code resp_search_describe = 53
message_type_code req_group_atomic = 54
message_type_code resp_group_atomic = 55
message_type_code config_mismatch = 254
message_type_code packet_nop = 255

-- `status as u16`
unfoldable pub return_code : LegacyReturnCode → ℕ
return_code success = 8320
return_code not_found = 8321
return_code bad_dimension_spec = 8322
return_code not_us = 8323
return_code server_error = 8324
return_code compare_failed = 8325
return_code read_only = 8327
return_code overflow = 8328
return_code unauthorized = 8329

-- `predicate as u16`
unfoldable pub predicate_code : LegacyPredicate → ℕ
predicate_code equal = 9729
predicate_code less_than = 9738
predicate_code less_than_or_equal = 9730
predicate_code greater_than_or_equal = 9731
predicate_code greater_than = 9739

-- `funcall.name as u8`
unfoldable pub funcall_code : LegacyFuncallName → ℕ
funcall_code set = 1
funcall_code string_append = 2
funcall_code string_prepend = 3
funcall_code num_add = 4
funcall_code num_sub = 5
funcall_code num_mul = 6
funcall_code num_div = 7
funcall_code num_mod = 8
funcall_code num_and = 9
funcall_code num_or = 10
funcall_code num_xor = 11
funcall_code list_l_push = 14
funcall_code list_r_push = 15
funcall_code set_add = 16
funcall_code set_remove = 17
funcall_code set_intersect = 18
funcall_code set_union = 19
funcall_code map_add = 20
funcall_code map_remove = 21

-- The first arm whose literal is the value.
unfoldable pub match_code {ℓ} : {A : Type ℓ} → ℕ → List (ℕ × A) → Option A
match_code v [] = none
match_code v ((c, a) ∷ arms) = if v == c then some a else match_code v arms

abbrev pub message_type_arms : List (ℕ × LegacyMessageType)
message_type_arms =
    (8, req_get)
    ∷ (9, resp_get)
    ∷ (10, req_get_partial)
    ∷ (11, resp_get_partial)
    ∷ (16, req_atomic)
    ∷ (17, resp_atomic)
    ∷ (32, req_search_start)
    ∷ (33, req_search_next)
    ∷ (34, req_search_stop)
    ∷ (35, resp_search_item)
    ∷ (36, resp_search_done)
    ∷ (40, req_sorted_search)
    ∷ (41, resp_sorted_search)
    ∷ (50, req_count)
    ∷ (51, resp_count)
    ∷ (52, req_search_describe)
    ∷ (53, resp_search_describe)
    ∷ (54, req_group_atomic)
    ∷ (55, resp_group_atomic)
    ∷ (254, config_mismatch)
    ∷ (255, packet_nop)
    ∷ []

unfoldable pub decode_message_type : ℕ → Result LegacyMessageType LegacyProtocolError
unfolding match_code
decode_message_type value = ok_or (match_code value message_type_arms) (unknown_message_type value)

abbrev pub return_code_arms : List (ℕ × LegacyReturnCode)
return_code_arms =
    (8320, success)
    ∷ (8321, not_found)
    ∷ (8322, bad_dimension_spec)
    ∷ (8323, not_us)
    ∷ (8324, server_error)
    ∷ (8325, compare_failed)
    ∷ (8327, read_only)
    ∷ (8328, overflow)
    ∷ (8329, unauthorized)
    ∷ []

unfoldable pub decode_return_code : ℕ → Result LegacyReturnCode LegacyProtocolError
unfolding match_code
decode_return_code value = ok_or (match_code value return_code_arms) (unknown_return_code value)

abbrev pub predicate_arms : List (ℕ × LegacyPredicate)
predicate_arms =
    (9729, equal)
    ∷ (9738, less_than)
    ∷ (9730, less_than_or_equal)
    ∷ (9731, greater_than_or_equal)
    ∷ (9739, greater_than)
    ∷ []

unfoldable pub decode_predicate : ℕ → Result LegacyPredicate LegacyProtocolError
unfolding match_code
decode_predicate value = ok_or (match_code value predicate_arms) (unknown_predicate value)

abbrev pub funcall_arms : List (ℕ × LegacyFuncallName)
funcall_arms =
    (1, set)
    ∷ (2, string_append)
    ∷ (3, string_prepend)
    ∷ (4, num_add)
    ∷ (5, num_sub)
    ∷ (6, num_mul)
    ∷ (7, num_div)
    ∷ (8, num_mod)
    ∷ (9, num_and)
    ∷ (10, num_or)
    ∷ (11, num_xor)
    ∷ (14, list_l_push)
    ∷ (15, list_r_push)
    ∷ (16, set_add)
    ∷ (17, set_remove)
    ∷ (18, set_intersect)
    ∷ (19, set_union)
    ∷ (20, map_add)
    ∷ (21, map_remove)
    ∷ []

unfoldable pub decode_funcall_name : ℕ → Result LegacyFuncallName LegacyProtocolError
unfolding match_code
decode_funcall_name value = ok_or (match_code value funcall_arms) (unknown_funcall_name value)
