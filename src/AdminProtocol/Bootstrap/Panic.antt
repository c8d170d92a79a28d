-- ===== src/AdminProtocol/Bootstrap/Panic.antt =====
-- A bootstrap response whose list is announced too long.
use hyperdex_rs.Prelude.Memory.{with_capacity}
use hyperdex_rs.Prelude.{ℕ, ◌*◌, ◌<◌, ◌≤◌, ◌≡◌, List, ◌∷◌, ◌++◌, arith, length, leb, false}
use hyperdex_rs.Prelude.{panic}
use hyperdex_rs.Prelude.Words.{u64_mod, to_be_bytes, length-to_be_bytes}
use hyperdex_rs.Prelude.Slices.{At-step, At-left, At-right}
use hyperdex_rs.AdminProtocol.Codes.{ReplicantNetworkMsgtype, encode_msgtype}
use hyperdex_rs.AdminProtocol.Varint.{encode_varint_u64}
use hyperdex_rs.AdminProtocol.Read.{decode_u64_be-At, decode_varint_u64_at-At}
use hyperdex_rs.AdminProtocol.Request.RoundTrip.{fields-At, first_msgtype-encode}
use hyperdex_rs.AdminProtocol.Bootstrap.{
  ReplicantBootstrapServer, encode_server, decode_configuration, decode_bootstrap,
}
use hyperdex_rs.AdminProtocol.Bootstrap.RoundTrip.{IsServer, decode_server-reads}

too_large :
    (size count : ℕ)
    → 1 ≤ size
    → 0x8000_0000_0000_0000 ≤ count
    → leb (size * count) 0x7fff_ffff_ffff_ffff ≡ false
too_large size count h k = let wide : count ≤ size * count = grind arith in ground arith

-- The head of a configuration with the number of servers that it announces.
abbrev pub announced : ℕ → ℕ → ℕ → ℕ → List ℕ
announced cluster_id version first_slot count =
    to_be_bytes 8 cluster_id
    ++ (to_be_bytes 8 version ++ (to_be_bytes 8 first_slot ++ encode_varint_u64 count))

-- A bootstrap response that announces 2^63 servers or more makes the decoder panic, whatever follows
-- the number: it reserves room for the announced servers before it reads one. The message is
-- shorter than 2^64 bytes, its words fit 64 bits, and a server takes at least a byte of memory.
pub decode_bootstrap_panics :
    (server_size : ℕ) (server : ReplicantBootstrapServer) (cluster_id version first_slot count : ℕ)
    (tail : List ℕ)
    → 1 ≤ server_size
    → IsServer server
    → cluster_id < u64_mod
    → version < u64_mod
    → first_slot < u64_mod
    → 0x8000_0000_0000_0000 ≤ count
    → count < u64_mod
    → let bytes =
        encode_msgtype ReplicantNetworkMsgtype.bootstrap
        ∷ (encode_server server ++ (announced cluster_id version first_slot count ++ tail)) in
      length bytes < u64_mod → decode_bootstrap server_size bytes ≡ panic
unfolding decode_bootstrap decode_configuration with_capacity
decode_bootstrap_panics server_size server cluster_id version first_slot count tail sized good h1 h2
      h3 many fits small =
    let s = encode_server server in
    let w1 = to_be_bytes 8 cluster_id in
    let w2 = to_be_bytes 8 version in
    let w3 = to_be_bytes 8 first_slot in
    let n = encode_varint_u64 count in
    let c = announced cluster_id version first_slot count in
    let at0 = fields-At (encode_msgtype ReplicantNetworkMsgtype.bootstrap) (s ++ (c ++ tail)) in
    let at1 = At-left c tail (At-right s (c ++ tail) at0) in
    let at2 = At-step w1 (w2 ++ (w3 ++ n)) 8 (length-to_be_bytes 8 cluster_id) at1 in
    let at3 = At-step w2 (w3 ++ n) 8 (length-to_be_bytes 8 version) at2 in
    let at4 = At-step w3 n 8 (length-to_be_bytes 8 first_slot) at3 in
    rw (
      first_msgtype-encode ReplicantNetworkMsgtype.bootstrap (s ++ (c ++ tail)),
      decode_server-reads _ 1 server _ (At-left s (c ++ tail) at0) small good,
      decode_u64_be-At small cluster_id (At-left w1 (w2 ++ (w3 ++ n)) at1) h1,
      decode_u64_be-At small version (At-left w2 (w3 ++ n) at2) h2,
      decode_u64_be-At small first_slot (At-left w3 n at3) h3,
      decode_varint_u64_at-At small count at4 fits,
      too_large server_size count sized many,
    )
