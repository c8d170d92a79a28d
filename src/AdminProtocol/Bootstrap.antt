-- ===== src/AdminProtocol/Bootstrap.antt =====
-- The bootstrap response of crates/hyperdex-admin-protocol/src/lib.rs: a server, and the
-- configuration with the list of all servers.
pub mod RoundTrip
pub mod Panic
use hyperdex_rs.Prelude.{
  ℕ, ◌+◌, ◌*◌, ◌<◌, ◌≡◌, List, ◌∷◌, ◌++◌, length, leb, ltb, if◌then◌else◌, not, ◌==◌,
}
use hyperdex_rs.Prelude.{Result, ok, err, panic, ok_or, ◌>>=◌, ◌>>◌, fail_if}
use hyperdex_rs.Prelude.Words.{to_be_bytes, from_be_bytes, checked_add}
use hyperdex_rs.Prelude.Memory.{with_capacity}
use hyperdex_rs.Prelude.Slices.{index}
use hyperdex_rs.Prelude.Decoders.{DecoderOf, decode_many, encode_many}
use hyperdex_rs.AdminProtocol.Codes.{
  AdminError, buffer_too_short, cursor_overflow, unspecified_address, unknown_address_family,
  unexpected_msgtype, ReplicantNetworkMsgtype, encode_msgtype,
}
use hyperdex_rs.AdminProtocol.Varint.{encode_varint_u64}
use hyperdex_rs.AdminProtocol.Read.{
  read_array_at, decode_u64_be, decode_varint_u64_at, expect_consumed,
}
use hyperdex_rs.AdminProtocol.Request.{first_msgtype}
use hyperdex_rs.AdminProtocol.Completion.{is_bootstrap}

-- `std::net::SocketAddr`: the octets and the port, and for IPv6 the flow information and the scope.
pub data SocketAddr : Type 0 where
  v4 : (octets : List ℕ) (port : ℕ) → SocketAddr
  v6 : (octets : List ℕ) (port flowinfo scope_id : ℕ) → SocketAddr

pub record ReplicantBootstrapServer : Type 0 where
  pub id : ℕ
  pub address : SocketAddr

pub record ReplicantBootstrapConfiguration : Type 0 where
  pub cluster_id : ℕ
  pub version : ℕ
  pub first_slot : ℕ
  pub servers : List ReplicantBootstrapServer

pub record ReplicantBootstrapResponse : Type 0 where
  pub server : ReplicantBootstrapServer
  pub configuration : ReplicantBootstrapConfiguration

unfoldable pub encode_socket_addr : SocketAddr → List ℕ
encode_socket_addr (v4 octets port) = 4 ∷ (octets ++ to_be_bytes 2 port)
encode_socket_addr (v6 octets port flowinfo scope_id) = 6 ∷ (octets ++ to_be_bytes 2 port)

-- The two arms of the decoder differ in the number of octets.
unfoldable pub decode_ip_and_port : ℕ → (List ℕ → ℕ → SocketAddr) → DecoderOf AdminError SocketAddr
decode_ip_and_port width address bytes cursor = do
  end ← ok_or (checked_add cursor width) cursor_overflow
  fail_if (ltb (length bytes) (end + 2)) buffer_too_short
  octets ← read_array_at bytes cursor width
  port ← read_array_at bytes end 2
  ok (address octets (from_be_bytes port), end + 2)

-- `SocketAddr::new` leaves the flow information and the scope at 0.
abbrev pub new_v6 : List ℕ → ℕ → SocketAddr
new_v6 octets port = v6 octets port 0 0

unfoldable pub decode_family : ℕ → DecoderOf AdminError SocketAddr
decode_family family bytes cursor =
    if family == 4
    then decode_ip_and_port 4 v4 bytes cursor
    else if family == 6
    then decode_ip_and_port 16 new_v6 bytes cursor
    else if family == 0
    then err unspecified_address
    else err (unknown_address_family family)

unfoldable pub decode_socket_addr : DecoderOf AdminError SocketAddr
decode_socket_addr bytes cursor = do
  fail_if (leb (length bytes) cursor) buffer_too_short
  family ← index bytes cursor
  decode_family family bytes (cursor + 1)

unfoldable pub encode_server : ReplicantBootstrapServer → List ℕ
encode_server server = to_be_bytes 8 server.id ++ encode_socket_addr server.address

unfoldable pub decode_server : DecoderOf AdminError ReplicantBootstrapServer
decode_server bytes cursor = do
  (id, c1) ← decode_u64_be bytes cursor
  (address, c2) ← decode_socket_addr bytes c1
  ok (record { id = id; address = address }, c2)

unfoldable pub encode_configuration : ReplicantBootstrapConfiguration → List ℕ
encode_configuration c =
    to_be_bytes 8 c.cluster_id
    ++ (to_be_bytes 8 c.version
        ++ (to_be_bytes 8 c.first_slot
            ++ (encode_varint_u64 (length c.servers) ++ encode_many encode_server c.servers)))

unfoldable pub encode_bootstrap : ReplicantBootstrapResponse → List ℕ
encode_bootstrap response =
    encode_msgtype ReplicantNetworkMsgtype.bootstrap
    ∷ (encode_server response.server ++ encode_configuration response.configuration)

-- The number of bytes of a `ReplicantBootstrapServer` in memory is the compiler's choice.
module _ (server_size : ℕ) where
  unfoldable pub decode_configuration : DecoderOf AdminError ReplicantBootstrapConfiguration
  decode_configuration bytes cursor = do
    (cluster_id, c1) ← decode_u64_be bytes cursor
    (version, c2) ← decode_u64_be bytes c1
    (first_slot, c3) ← decode_u64_be bytes c2
    (servers_len, c4) ← decode_varint_u64_at bytes c3
    with_capacity server_size servers_len
    (servers, c5) ← decode_many decode_server servers_len bytes c4
    ok (
      record {
        cluster_id = cluster_id;
        version = version;
        first_slot = first_slot;
        servers = servers;
      },
      c5,
    )

  unfoldable pub decode_bootstrap : List ℕ → Result ReplicantBootstrapResponse AdminError
  decode_bootstrap bytes = do
    msgtype ← first_msgtype bytes
    fail_if (not (is_bootstrap msgtype)) unexpected_msgtype
    (server, c1) ← decode_server bytes 1
    (configuration, c2) ← decode_configuration bytes c1
    expect_consumed bytes c2
    ok (record { server = server; configuration = configuration })
