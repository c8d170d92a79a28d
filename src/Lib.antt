-- ===== src/Lib.antt =====
-- hyperdex-rs: a model of the key-value store's wire protocols, for clients and for administration,
-- its TCP frontend, its catalog, its placement, its engine in memory and the data plane in front of
-- it.
--
-- A client of the legacy protocol sends frames: a length word, a header with a message type and a
-- nonce, and a body. The frontend reads frames off a connection, answers identify frames itself,
-- hands the others to a handler and writes the handler's responses in their order. Bodies come in
-- two forms, a binary one with attribute numbers and one with attribute names. Placement decides
-- which nodes hold a key, and the engine keeps the records of a node. The data plane runs an operation
-- on the engine when the catalog has the space and the placement finds a node for the key. An
-- administration client sends frames with requests to the coordinator, which adds spaces to the
-- catalog and removes them.
--
-- The files, and the code that they model:
--   Prelude and its children: lists over the native numbers, Boolean tests, machine words as lists of
--     bytes, slices of a buffer, UTF-8, results that may also panic, reserved memory,
--     well-founded order.
--   LegacyProtocol/Codes, Read, Varint, Many: crates/legacy-protocol/src/lib.rs, the enums with their
--     codes, read_u16_be and the like, encode_varint and decode_varint, loops over counted items.
--   LegacyProtocol/Protocol, with Messages: encode_protocol_* and decode_protocol_* there.
--   LegacyProtocol/Named, with Bodies: encode_body and decode_body of the types there that carry
--     attribute names, named encode_<type> and decode_<type> here.
--   LegacyProtocol/Header: RequestHeader and ResponseHeader with encode and decode, and the frames.
--   LegacyFrontend: crates/legacy-frontend/src/lib.rs. A connection is the bytes that are still to be
--     read and the bytes written. read_round is one round of the loop in read_request_frame, and
--     read_response_frame the second half of request_once; the handler is a parameter with a state.
--   Placement: crates/placement-core/src/lib.rs, locate of both strategies, with the FNV-1a hash.
--   DataModel: crates/data-model/src/lib.rs, the types Value, Record, Check, Mutation and their parts,
--     with the derived order of values; its child Maps has the ordered maps, Sorted what keeps them
--     ordered, and Space the types of spaces, attributes and options.
--   AdminProtocol: crates/hyperdex-admin-protocol/src/lib.rs. Codes, Varint and Read have the codes and
--     the readers with their cursor; Frame has BusyBeeFrame; Request, Completion and Bootstrap have
--     encode and decode of the messages, named encode_<message> and decode_<message> here; Datatype and
--     PackedSpace have decode_packed_hyperdex_space with its decoder, whose read_u16, read_u32 and
--     read_u64 are read_word; Coordinator has into_coordinator_request.
--   ClusterConfig: crates/cluster-config/src/lib.rs.
--   ControlPlane: crates/control-plane/src/lib.rs, InMemoryCatalog; create_space and drop_space are
--     create_catalog_space and drop_catalog_space here. Its child Nodes has the map of the nodes.
--   DataPlane: crates/data-plane/src/lib.rs. The traits that it uses are records of functions, and an
--     operation is named data_<operation>; its child Run has commands, on the plane and on an engine.
--   MemoryEngine: crates/engine-memory/src/lib.rs and crates/storage-core/src/lib.rs. The state is the
--     map of spaces, an operation gives its result and the state it leaves; get_record is get,
--     space_names is spaces, and condition_holds the match at the head of conditional_put. Its child
--     Numbers has apply_numeric.
--   Server: of crates/server/src/lib.rs the parts of the configuration for legacy coordinators that
--     compute: legacy_hyperdatatype, legacy_partition_points and legacy_replica_sets.
-- The children RoundTrip, Safety, Panic, Exact, Counted, SmallBodies, Items, Values, Lists, Read,
-- Serve, Sort, Members, Rendezvous, Hyperspace, Laws, Bodies of Protocol, Together, Single, Stream,
-- Declared, WellFormed, Wire, Invariant, Sorted, Refinement, Datatypes, Points, Picked, Replicas,
-- Counting, Ring, Walk, Conditions and Deletion hold proofs; the children Examples hold worked
-- runs.
--
-- Conventions: a byte is a number below 256 and a buffer is a list of bytes; a word of w bits is a
-- number with its wrap-around written out, and an i64 is the word that stands for it in two's
-- complement. A result is ok, err with the source's error, or panic where the source would index or
-- slice out of range, or reserve more memory than a Vec can have; the sizes of a server and of a
-- token in memory are parameters there. An anyhow error is the kind of its message. Buffers are
-- shorter than 2^64. The order of floats is a parameter, since it is the one of the package
-- ordered-float. encode_varint recurses on the order of the numbers; the two loops of the frontend
-- run on fuel, and more rounds than there are bytes of input are enough for any handler; the loop
-- of decode_stream has fuel for each byte, and a round takes four.
--
-- Not modelled: listening and spawning, write errors and the capture log of the frontend; the space
-- descriptions of the data model, the RocksDB engine, consensus and gRPC; the rest of the server;
-- of the administration protocol the types that tasks pass to each other, method_name and the
-- captured bootstrap request.
pub mod Prelude
pub mod AdminProtocol
pub mod ClusterConfig
pub mod ControlPlane
pub mod DataModel
pub mod DataPlane
pub mod LegacyFrontend
pub mod LegacyProtocol
pub mod MemoryEngine
pub mod Placement
pub mod Server
