-- ===== src/AdminProtocol/Bootstrap/RoundTrip.antt =====
-- A bootstrap response reads back as it was written.
use hyperdex_rs.Prelude.Memory.{with_capacity}
use hyperdex_rs.Prelude.{
  ℕ, ◌+◌, ◌*◌, ◌<◌, ◌≡◌, ap, List, [], ◌∷◌, ◌++◌, All, arith, length, length-append, lt→ltb, le→ltb,
  le→leb, leb, false, suc,
}
use hyperdex_rs.Prelude.{ok}
use hyperdex_rs.Prelude.Words.{
  u64_mod, u16_mod, to_be_bytes, length-to_be_bytes, from_be_bytes-to_be_bytes,
}
use hyperdex_rs.Prelude.Slices.{
  At, At-step, At-left, At-right, At-length, index-At, get_range-At_width,
}
use hyperdex_rs.Prelude.Decoders.{Reads, decode_many-reads, encode_many}
use hyperdex_rs.AdminProtocol.Codes.{ReplicantNetworkMsgtype, encode_msgtype}
use hyperdex_rs.AdminProtocol.Varint.{encode_varint_u64}
use hyperdex_rs.AdminProtocol.Read.{
  read_array_at, decode_u64_be-At, decode_varint_u64_at-At, expect_consumed-end,
}
use hyperdex_rs.AdminProtocol.Request.RoundTrip.{fields-At, first_msgtype-encode}
use hyperdex_rs.AdminProtocol.Bootstrap.{
  SocketAddr, v4, v6, new_v6, ReplicantBootstrapServer, ReplicantBootstrapConfiguration,
  ReplicantBootstrapResponse, encode_socket_addr, decode_socket_addr, decode_ip_and_port,
  decode_family, encode_server, decode_server, encode_configuration, decode_configuration,
  encode_bootstrap, decode_bootstrap,
}

-- What the message can hold of an address: as many octets as the family has, a port of 16 bits, and
-- neither flow information nor a scope.
abbrev pub IsAddress : SocketAddr → Type 0
IsAddress (v4 octets port) = (length octets ≡ 4) × (port < u16_mod)
IsAddress (v6 octets port flowinfo scope_id) =
    (length octets ≡ 16) × (port < u16_mod) × (flowinfo ≡ 0) × (scope_id ≡ 0)

pub record IsServer (server : ReplicantBootstrapServer) : Type 0 where
  pub id : server.id < u64_mod
  pub address : IsAddress server.address

pub record IsConfiguration (c : ReplicantBootstrapConfiguration) : Type 0 where
  pub cluster_id : c.cluster_id < u64_mod
  pub version : c.version < u64_mod
  pub first_slot : c.first_slot < u64_mod
  pub servers : All IsServer c.servers
  pub servers_len : length c.servers < u64_mod

module _ {bytes : List ℕ} {offset : ℕ} {rest : List ℕ} (small : length bytes < u64_mod) where
  read_array_at-At :
      (xs : List ℕ) (n : ℕ)
      → length xs ≡ n
      → At bytes offset xs rest
      → read_array_at bytes offset n ≡ ok xs
  unfolding read_array_at
  read_array_at-At xs n e at =
      rw (lt→ltb (offset + n) u64_mod (omega (arith, At-length at)), get_range-At_width n e at)

decode_ip_and_port-At :
    {bytes : List ℕ} {offset : ℕ} {rest : List ℕ} (width : ℕ) (address : List ℕ → ℕ → SocketAddr)
    (octets : List ℕ) (port : ℕ)
    → length bytes < u64_mod
    → length octets ≡ width
    → port < u16_mod
    → At bytes offset (octets ++ to_be_bytes 2 port) rest
    → decode_ip_and_port width address bytes offset ≡ ok (address octets port, offset + width + 2)
unfolding decode_ip_and_port
decode_ip_and_port-At {bytes} {offset} width address octets port small e h at =
    let at1 = At-step octets (to_be_bytes 2 port) width e at in
    let wide = length-to_be_bytes 2 port in
    rw (
      lt→ltb (offset + width) u64_mod (omega (arith, At-length at1)),
      le→ltb (length bytes) (offset + width + 2) (omega (arith, At-length at1, wide)),
      read_array_at-At small octets width e (At-left octets (to_be_bytes 2 port) at),
      read_array_at-At small (to_be_bytes 2 port) 2 wide at1,
      from_be_bytes-to_be_bytes 2 port h,
    )

decode_socket_addr-At :
    (bytes : List ℕ) (offset : ℕ) (address : SocketAddr) (rest : List ℕ)
    → At bytes offset (encode_socket_addr address) rest
    → length bytes < u64_mod
    → IsAddress address
    → decode_socket_addr bytes offset ≡ ok (address, offset + length (encode_socket_addr address))
unfolding encode_socket_addr decode_socket_addr decode_family
decode_socket_addr-At bytes offset (v4 octets port) rest at small good =
    let tail = octets ++ to_be_bytes 2 port in
    let at1 = At-step (4 ∷ []) tail 1 (omega arith) at in
    let long : leb (length bytes) offset ≡ false = ground (arith, At-length at) in
    let wide : offset + 1 + 4 + 2 ≡ offset + suc (length tail) =
      omega (arith, length-append octets (to_be_bytes 2 port), length-to_be_bytes 2 port, good.0) in
    rw (long, index-At at, decode_ip_and_port-At 4 v4 octets port small good.0 good.1 at1)
      (ap (λ (n : ℕ). ok (v4 octets port, n)) wide)
decode_socket_addr-At bytes offset (v6 octets port flowinfo scope_id) rest at small good =
    let tail = octets ++ to_be_bytes 2 port in
    let at1 = At-step (6 ∷ []) tail 1 (omega arith) at in
    let long : leb (length bytes) offset ≡ false = ground (arith, At-length at) in
    let wide : offset + 1 + 16 + 2 ≡ offset + suc (length tail) =
      omega (arith, length-append octets (to_be_bytes 2 port), length-to_be_bytes 2 port, good.0) in
    rw
      (
        long,
        index-At at,
        decode_ip_and_port-At 16 new_v6 octets port small good.0 good.1 at1,
        good.2,
        good.3,
      )
      (ap (λ (n : ℕ). ok (v6 octets port 0 0, n)) wide)

pub decode_server-reads :
    (bytes : List ℕ) (offset : ℕ) (server : ReplicantBootstrapServer) (rest : List ℕ)
    → At bytes offset (encode_server server) rest
    → length bytes < u64_mod
    → IsServer server
    → decode_server bytes offset ≡ ok (server, offset + length (encode_server server))
unfolding encode_server decode_server
decode_server-reads bytes offset server rest at small good =
    let word = to_be_bytes 8 server.id in
    let tail = encode_socket_addr server.address in
    let at1 = At-step word tail 8 (length-to_be_bytes 8 server.id) at in
    let wide : offset + 8 + length tail ≡ offset + length (word ++ tail) =
      omega (arith, length-append word tail, length-to_be_bytes 8 server.id) in
    rw
      (
        decode_u64_be-At small server.id (At-left word tail at) good.id,
        decode_socket_addr-At bytes (offset + 8) server.address rest at1 small good.address,
      )
      (ap (λ (n : ℕ). ok (server, n)) wide)

decode_server-Reads : Reads encode_server decode_server IsServer
decode_server-Reads = record { reads = decode_server-reads }

module _ (server_size : ℕ) where
  decode_configuration-At :
      (bytes : List ℕ) (offset : ℕ) (c : ReplicantBootstrapConfiguration) (rest : List ℕ)
      → At bytes offset (encode_configuration c) rest
      → length bytes < u64_mod
      → IsConfiguration c
      → server_size * length c.servers < 0x8000_0000_0000_0000
      → decode_configuration server_size bytes offset
        ≡ ok (c, offset + length (encode_configuration c))
  unfolding encode_configuration decode_configuration with_capacity
  decode_configuration-At bytes offset c rest at small good fits =
      let w1 = to_be_bytes 8 c.cluster_id in
      let w2 = to_be_bytes 8 c.version in
      let w3 = to_be_bytes 8 c.first_slot in
      let n = encode_varint_u64 (length c.servers) in
      let items = encode_many encode_server c.servers in
      let t3 = n ++ items in
      let t2 = w3 ++ t3 in
      let t1 = w2 ++ t2 in
      let at1 = At-step w1 t1 8 (length-to_be_bytes 8 c.cluster_id) at in
      let at2 = At-step w2 t2 8 (length-to_be_bytes 8 c.version) at1 in
      let at3 = At-step w3 t3 8 (length-to_be_bytes 8 c.first_slot) at2 in
      let at4 = At-right n items at3 in
      let end : offset + 8 + 8 + 8 + length n + length items ≡ offset + length (w1 ++ t1) =
        omega (arith, At-length at, At-length at4) in
      rw
        (
          decode_u64_be-At small c.cluster_id (At-left w1 t1 at) good.cluster_id,
          decode_u64_be-At small c.version (At-left w2 t2 at1) good.version,
          decode_u64_be-At small c.first_slot (At-left w3 t3 at2) good.first_slot,
          decode_varint_u64_at-At small (length c.servers) (At-left n items at3) good.servers_len,
          le→leb (server_size * length c.servers) 0x7fff_ffff_ffff_ffff (omega arith),
          decode_many-reads encode_server decode_server IsServer decode_server-Reads c.servers bytes
              (offset + 8 + 8 + 8 + length n) rest at4 small good.servers,
        )
        (ap (λ (k : ℕ). ok (c, k)) end)

  -- A bootstrap response reads back as it was written when its words fit 64 bits, its addresses have
  -- no flow information and no scope, its encoding is shorter than 2^64 bytes and its servers take
  -- less than 2^63 bytes of memory, at `server_size` bytes each.
  pub decode_bootstrap-encode :
      (response : ReplicantBootstrapResponse)
      → IsServer response.server
      → IsConfiguration response.configuration
      → length (encode_bootstrap response) < u64_mod
      → server_size * length response.configuration.servers < 0x8000_0000_0000_0000
      → decode_bootstrap server_size (encode_bootstrap response) ≡ ok response
  unfolding encode_bootstrap decode_bootstrap
  decode_bootstrap-encode response good_server good_configuration small fits =
      let s = encode_server response.server in
      let c = encode_configuration response.configuration in
      let b = encode_msgtype ReplicantNetworkMsgtype.bootstrap in
      let at0 = fields-At b (s ++ c) in
      let at1 = At-right s c at0 in
      rw (
        first_msgtype-encode ReplicantNetworkMsgtype.bootstrap (s ++ c),
        decode_server-reads (b ∷ (s ++ c)) 1 response.server _ (At-left s c at0) small good_server,
        decode_configuration-At (b ∷ (s ++ c)) (1 + length s) response.configuration [] at1 small
            good_configuration fits,
        expect_consumed-end (b ∷ (s ++ c)) (1 + length s + length c) (omega (arith, At-length at1)),
      )
