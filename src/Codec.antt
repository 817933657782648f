-- ===== src/Codec.antt =====
-- The codecs of the stored entries: src/StringTCodec.cpp, src/RawDataCodec.cpp, src/AccountCodec.cpp,
-- src/ClearingCodec.cpp, src/InstrumentCodec.cpp, src/OrderCodec.cpp, and the two `serialize` and `restore`
-- pairs that they call. A buffer is the list of its bytes.
pub mod Bytes
pub mod Entries
pub mod Orders
pub mod Reading
pub mod RoundTrip
pub mod Cutting
pub mod Stored
