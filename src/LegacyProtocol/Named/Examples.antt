-- ===== src/LegacyProtocol/Named/Examples.antt =====
-- Worked runs of the bodies that carry attribute names.
use hyperdex_rs.LegacyProtocol.Named.Together.{
  decode_request_body-encode, decode_response_body-encode,
}
use hyperdex_rs.Prelude.{
  ℕ, ◌<◌, ◌≡◌, refl, inl, List, [], ◌∷◌, Option, none, some, true, false, arith, length, All,
}
use hyperdex_rs.Prelude.{Result, ok, err, panic, Returns}
use hyperdex_rs.Prelude.Words.{u16_mod, u64_mod}
use hyperdex_rs.Prelude.Utf8.{is_utf8}
use hyperdex_rs.LegacyProtocol.Codes.{LegacyReturnCode, LegacyPredicate, LegacyFuncallName}
use hyperdex_rs.LegacyProtocol.Named.{GetValue, GetAttribute, LegacyCheck, LegacyFuncall}
use hyperdex_rs.LegacyProtocol.Named.Values.{IsGetValue}
use hyperdex_rs.LegacyProtocol.Named.Items.{IsName, IsAttribute, IsLegacyCheck, IsLegacyFuncall}
use hyperdex_rs.LegacyProtocol.Named.Bodies.{
  CountResponse, GetResponse, SearchStartRequest, SearchContinueRequest, SearchItemResponse,
  SearchDoneResponse, AtomicRequest, AtomicResponse, encode_count_request, decode_count_request,
  decode_count_response, encode_get_request, decode_get_request, encode_get_response,
  decode_get_response, encode_search_start_request, decode_search_start_request,
  decode_search_continue_request, encode_search_item_response, decode_search_item_response,
  decode_search_done_response, encode_atomic_request, decode_atomic_request, decode_atomic_response,
}
use hyperdex_rs.LegacyProtocol.Named.RoundTrip.{
  IsAtomicRequest, IsSearchStartRequest, IsSearchItemResponse, IsGetResponse,
  decode_atomic_request-encode,
}
use hyperdex_rs.LegacyProtocol.Named.Safety.{decode_body-Returns}
use hyperdex_rs.LegacyProtocol.Named.Panic.{cut_request, decode_atomic_request_panics}

-- "ab" and "n"
abbrev key : List ℕ
key = 97 ∷ 98 ∷ []

abbrev attribute : List ℕ
attribute = 110 ∷ []

abbrev seven : GetValue
seven = GetValue.int 7

abbrev age_check : LegacyCheck
age_check = record {
  attribute = attribute;
  predicate = LegacyPredicate.less_than_or_equal;
  value = GetValue.string key;
}

abbrev add_call : LegacyFuncall
add_call = record {
  attribute = attribute;
  name = LegacyFuncallName.num_add;
  arg1 = seven;
  arg2 = some GetValue.null;
}

abbrev request : AtomicRequest
request = record { flags = 3; key = key; checks = age_check ∷ []; funcalls = add_call ∷ [] }

text : is_utf8 key ≡ true
unfolding is_utf8
text = refl

text_of_attribute : is_utf8 attribute ≡ true
unfolding is_utf8
text_of_attribute = refl

attribute-IsName : IsName attribute
attribute-IsName = (omega arith, text_of_attribute)

seven-IsGetValue : IsGetValue seven
seven-IsGetValue = omega arith

age_check-IsLegacyCheck : IsLegacyCheck age_check
age_check-IsLegacyCheck = record { attribute = attribute-IsName; value = (omega arith, text) }

add_call-IsLegacyFuncall : IsLegacyFuncall add_call
add_call-IsLegacyFuncall = record {
  attribute = attribute-IsName;
  arg1 = seven-IsGetValue;
  arg2 = tt;
}

atomic_request_fits : length (encode_atomic_request request) < u64_mod
unfolding encode_atomic_request hyperdex_rs.Prelude.Words.to_be_bytes
    hyperdex_rs.LegacyProtocol.Named.encode_checks_into hyperdex_rs.LegacyProtocol.Many.encode_many
    hyperdex_rs.LegacyProtocol.Named.encode_check
    hyperdex_rs.LegacyProtocol.Named.encode_named_value_into
    hyperdex_rs.LegacyProtocol.Named.encode_value_into
    hyperdex_rs.LegacyProtocol.Named.encode_funcalls_into
    hyperdex_rs.LegacyProtocol.Named.encode_funcall hyperdex_rs.LegacyProtocol.Named.encode_arg2
atomic_request_fits = omega arith

request-IsAtomicRequest : IsAtomicRequest request
request-IsAtomicRequest = record {
  key = omega arith;
  check_count = omega arith;
  checks = (age_check-IsLegacyCheck, tt);
  funcall_count = omega arith;
  funcalls = (add_call-IsLegacyFuncall, tt);
  fits = atomic_request_fits;
}

decode_atomic_request-encode_example :
    decode_atomic_request (encode_atomic_request request) ≡ ok request
decode_atomic_request-encode_example = decode_atomic_request-encode request request-IsAtomicRequest

abbrev search_start : SearchStartRequest
search_start = record { space = key; search_id = 9; checks = age_check ∷ [] }

search_start_fits : length (encode_search_start_request search_start) < u64_mod
unfolding encode_search_start_request hyperdex_rs.Prelude.Words.to_be_bytes
    hyperdex_rs.LegacyProtocol.Named.encode_checks_into hyperdex_rs.LegacyProtocol.Many.encode_many
    hyperdex_rs.LegacyProtocol.Named.encode_check
    hyperdex_rs.LegacyProtocol.Named.encode_named_value_into
    hyperdex_rs.LegacyProtocol.Named.encode_value_into
search_start_fits = omega arith

search_start-IsSearchStartRequest : IsSearchStartRequest search_start
search_start-IsSearchStartRequest = record {
  space = (omega arith, text);
  search_id = omega arith;
  check_count = omega arith;
  checks = (age_check-IsLegacyCheck, tt);
  fits = search_start_fits;
}

abbrev age : GetAttribute
age = record { name = attribute; value = seven }

age-IsAttribute : IsAttribute age
age-IsAttribute = record { name = attribute-IsName; value = seven-IsGetValue }

abbrev item : SearchItemResponse
item = record { search_id = 9; key = key; attributes = age ∷ age ∷ [] }

item_fits : length (encode_search_item_response item) < u64_mod
unfolding encode_search_item_response hyperdex_rs.Prelude.Words.to_be_bytes
    hyperdex_rs.LegacyProtocol.Named.encode_attributes_into
    hyperdex_rs.LegacyProtocol.Many.encode_many hyperdex_rs.LegacyProtocol.Named.encode_attribute
    hyperdex_rs.LegacyProtocol.Named.encode_named_value_into
    hyperdex_rs.LegacyProtocol.Named.encode_value_into
item_fits = omega arith

item-IsSearchItemResponse : IsSearchItemResponse item
item-IsSearchItemResponse = record {
  search_id = omega arith;
  key = omega arith;
  attribute_count = omega arith;
  attributes = (age-IsAttribute, (age-IsAttribute, tt));
  fits = item_fits;
}

abbrev found : GetResponse
found = record { status = LegacyReturnCode.success; attributes = age ∷ [] }

found_fits : length (encode_get_response found) < u64_mod
unfolding encode_get_response hyperdex_rs.Prelude.Words.to_be_bytes
    hyperdex_rs.LegacyProtocol.Named.encode_attributes_into
    hyperdex_rs.LegacyProtocol.Many.encode_many hyperdex_rs.LegacyProtocol.Named.encode_attribute
    hyperdex_rs.LegacyProtocol.Named.encode_named_value_into
    hyperdex_rs.LegacyProtocol.Named.encode_value_into
found_fits = omega arith

found-IsGetResponse : IsGetResponse found
found-IsGetResponse = record {
  attribute_count = omega arith;
  attributes = (age-IsAttribute, tt);
  fits = found_fits;
}

abbrev count : CountResponse
count = record { count = 3 }

abbrev next : SearchContinueRequest
next = record { search_id = 9 }

abbrev done : SearchDoneResponse
done = record { search_id = 9 }

abbrev status : AtomicResponse
status = record { status = LegacyReturnCode.compare_failed }

decode_request_body-encode_example :
    (decode_count_request (encode_count_request (record { space = key }))
      ≡ ok (record { space = key }))
    × (decode_get_request (encode_get_request (record { key = key })) ≡ ok (record { key = key }))
    × (decode_search_start_request (encode_search_start_request search_start) ≡ ok search_start)
decode_request_body-encode_example =
    decode_request_body-encode key key search_start (omega arith, text) (omega arith)
      search_start-IsSearchStartRequest

decode_response_body-encode_example :
    (decode_search_item_response (encode_search_item_response item) ≡ ok item)
    × (decode_get_response (encode_get_response found) ≡ ok found)
decode_response_body-encode_example =
    decode_response_body-encode item found item-IsSearchItemResponse found-IsGetResponse

-- A key length of 258 with one byte behind it
abbrev short : List ℕ
short = 1 ∷ 2 ∷ 3 ∷ []

decode_body-Returns_example :
    Returns (decode_count_request short)
    × Returns (decode_count_response short)
    × Returns (decode_get_request short)
    × Returns (decode_get_response short)
    × Returns (decode_search_start_request short)
    × Returns (decode_search_continue_request short)
    × Returns (decode_search_item_response short)
    × Returns (decode_search_done_response short)
    × Returns (decode_atomic_response short)
decode_body-Returns_example = decode_body-Returns short

abbrev cut : List ℕ
cut = cut_request key 3 (age_check ∷ []) LegacyFuncallName.set attribute seven

cut_fits : length cut < u64_mod
unfolding hyperdex_rs.Prelude.Words.to_be_bytes hyperdex_rs.LegacyProtocol.Named.encode_checks_into
    hyperdex_rs.LegacyProtocol.Many.encode_many hyperdex_rs.LegacyProtocol.Named.encode_check
    hyperdex_rs.LegacyProtocol.Named.encode_named_value_into
    hyperdex_rs.LegacyProtocol.Named.encode_value_into
cut_fits = omega arith

decode_atomic_request_panics_example : decode_atomic_request cut ≡ panic
decode_atomic_request_panics_example =
    decode_atomic_request_panics key 3 (age_check ∷ []) LegacyFuncallName.set attribute seven
      (omega arith) (omega arith) (age_check-IsLegacyCheck, tt) attribute-IsName seven-IsGetValue
      cut_fits
