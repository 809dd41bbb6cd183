-- ===== src/Wire.antt =====
-- mongodb-cwal-rs-master/src/wire_protocol: headers and messages of the wire protocol.
pub mod Codec
pub mod Size
pub mod Header
pub mod Message
pub mod Heads
pub mod Lengths
pub mod Reply
pub mod Examples
