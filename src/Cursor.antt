-- ===== src/Cursor.antt =====
-- mongodb-cwal-rs-master/src/cursor.rs: the buffer of a cursor, its limit, and the replies that fill it.
pub mod Defs
pub mod Limit
pub mod Buffered
pub mod Examples
