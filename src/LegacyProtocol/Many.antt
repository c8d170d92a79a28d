-- ===== src/LegacyProtocol/Many.antt =====
-- The decoders of crates/legacy-protocol/src/lib.rs that read at an offset.
use hyperdex_rs.LegacyProtocol.Codes.{LegacyProtocolError}
pub use hyperdex_rs.Prelude.Decoders.{
  DecoderOf, Reads, Stays, decode_many-reads, length-encode_many, decode_many-Stays,
}
unfoldable pub use hyperdex_rs.Prelude.Decoders.{decode_many, encode_many}

abbrev pub Decoder : Type 0 → Type 0
Decoder A = DecoderOf LegacyProtocolError A
