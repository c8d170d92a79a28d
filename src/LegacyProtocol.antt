-- ===== src/LegacyProtocol.antt =====
-- crates/legacy-protocol/src/lib.rs: the wire format of HyperDex's legacy clients.
pub mod Codes
pub mod Read
pub mod Varint
pub mod Many
pub mod Protocol
pub mod Named
pub mod Header
mod Examples
