-- ===== src/Connstring.antt =====
-- mongodb-cwal-rs-master/src/connstring.rs: hosts, and the parsing of connection strings.
pub mod Host
pub mod Find
pub mod Data
pub mod Options
pub mod Parse
pub mod Cuts
pub mod Print
pub mod Pairs
pub mod RoundTrip
pub mod Errors
pub mod Secure
mod Examples
