-- ===== src/AdminProtocol/Coordinator/Wire.antt =====
-- What the coordinator makes of the bytes that the admin client sends.
use hyperdex_rs.Prelude.{ℕ, ◌<◌, ◌≡◌, refl, List, [], ◌∷◌, ◌++◌, some, true, arith, length}
use hyperdex_rs.Prelude.{ok, ◌>>=◌, Returns, Ensures, Ensures-bind}
use hyperdex_rs.Prelude.Words.{u64_mod}
use hyperdex_rs.Prelude.Utf8.{is_utf8, from_utf8}
use hyperdex_rs.AdminProtocol.Request.{
  ReplicantAdminRequestMessage, first_msgtype, encode_request, decode_request, decode_request_arm,
  decode_get_robust_params, decode_cond_wait, decode_call, decode_call_robust,
}
use hyperdex_rs.AdminProtocol.Request.RoundTrip.{decode_request-encode}
use hyperdex_rs.AdminProtocol.PackedSpace.WellFormed.{
  decode_packed_hyperdex_space-Ensures, IsWellFormed,
}
use hyperdex_rs.AdminProtocol.Coordinator.{
  CoordinatorAdminRequest, space_rm, space_add, wait_until_stable, before_nul, decode_c_string,
  coordinator_call, into_coordinator_request,
}
use hyperdex_rs.AdminProtocol.Request
use hyperdex_rs.AdminProtocol.Request.Safety.{decode_request-Returns}

before_nul-terminated : (xs : List ℕ) → before_nul (xs ++ (0 ∷ [])) ≡ some xs
unfolding before_nul
before_nul-terminated [] = refl
before_nul-terminated (x ∷ []) = refl
before_nul-terminated (x ∷ (y ∷ xs)) = rw (before_nul, before_nul-terminated (y ∷ xs))

-- The client's requests to remove a space and to wait until the cluster is stable reach the
-- coordinator as such: their encodings decode to messages that it takes for the removal of the space
-- of that name and for the wait. The name is UTF-8, the nonce and the state fit 64 bits, and the
-- messages are shorter than 2^64 bytes.
pub into_coordinator_request-sent :
    (nonce state : ℕ) (name : List ℕ)
    → nonce < u64_mod
    → state < u64_mod
    → is_utf8 name ≡ true
    → length (encode_request (Request.space_rm nonce name)) < u64_mod
    → length (encode_request (Request.wait_until_stable nonce state)) < u64_mod
    → ((decode_request (encode_request (Request.space_rm nonce name)) >>= into_coordinator_request)
        ≡ ok (space_rm name))
      × ((decode_request (encode_request (Request.wait_until_stable nonce state))
            >>= into_coordinator_request)
          ≡ ok wait_until_stable)
unfolding into_coordinator_request coordinator_call decode_c_string from_utf8
into_coordinator_request-sent nonce state name h h' text small small' = (
  rw (
    decode_request-encode (Request.space_rm nonce name) h small,
    before_nul-terminated name,
    text,
  ),
  rw (decode_request-encode (Request.wait_until_stable nonce state) (h, h') small'),
)

-- A request that comes from the wire carries a well-formed space if it adds one.
abbrev pub IsSound : CoordinatorAdminRequest → Type 0
IsSound (space_add space) = IsWellFormed space
IsSound _ = Unit {0}

decode_c_string-Returns : (bytes : List ℕ) → Returns (decode_c_string bytes)
unfolding decode_c_string
decode_c_string-Returns bytes = ground arith

coordinator_call-Ensures :
    (object function input : List ℕ) → Ensures IsSound (coordinator_call object function input)
unfolding coordinator_call
coordinator_call-Ensures object function input =
    ground (arith, decode_packed_hyperdex_space-Ensures input, decode_c_string-Returns input)

into_coordinator_request-Ensures :
    (request : ReplicantAdminRequestMessage) → Ensures IsSound (into_coordinator_request request)
unfolding into_coordinator_request
into_coordinator_request-Ensures (Request.get_robust_params nonce) = tt
into_coordinator_request-Ensures (Request.cond_wait nonce object condition state) = ground arith
into_coordinator_request-Ensures (Request.call nonce object function input) =
    coordinator_call-Ensures object function input
into_coordinator_request-Ensures (Request.call_robust nonce m s object function input) =
    coordinator_call-Ensures object function input

-- Whatever bytes the coordinator receives as a request, it comes back with a request or an error
-- and does not panic, and a space that it is asked to add is well-formed.
pub receive-Ensures :
    (bytes : List ℕ) → Ensures IsSound (decode_request bytes >>= into_coordinator_request)
receive-Ensures bytes =
    Ensures-bind _ _ (decode_request bytes) _ (decode_request-Returns bytes)
      λ request _. into_coordinator_request-Ensures request
