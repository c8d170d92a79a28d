-- ===== src/AdminProtocol.antt =====
-- crates/hyperdex-admin-protocol/src/lib.rs: the frames and messages that the admin client and the
-- coordinator exchange. Bytes and words are natural numbers; an `anyhow` error is the kind of its
-- message, without the label that the message names.

pub mod Codes
pub mod Varint
pub mod Read
pub mod Request
pub mod Completion
pub mod Frame
pub mod Bootstrap
pub mod Datatype
pub mod PackedSpace
pub mod Coordinator
mod Examples
