-- ===== src/Auth.antt =====
-- mongodb-cwal-rs-master/src/auth.rs: the exchange of SCRAM-SHA-1 messages.
pub mod Bytes
pub mod Defs
pub mod Proof
pub mod Server
pub mod Termination
mod Examples
