-- ===== src/ByteCodec.antt =====
-- Adapters/Inbound/Tcp/Protocol/Common/ByteCodec.hpp: reading and writing of big-endian integers,
-- floats, enums and length-prefixed data. `Detail`, `Reader` and `Writer` are its three parts, and
-- the other modules prove what holds of them.
pub mod Detail
pub mod Reader
pub mod Writer
pub mod Unsigned
pub mod Bounds
pub mod LenPrefixed
pub mod RoundTrip
pub mod Public
mod Runs
