-- ===== src/Pool.antt =====
-- mongodb-cwal-rs-master/src/pool.rs: the connection pool of one server.
-- A method runs under the pool's mutex, so each is one step from pool to pool. The socket type, the
-- clock (in nanoseconds) and the outcomes of connecting and of the handshake are arguments. The lock
-- is never poisoned. The front of a deque is the head of its list.
pub mod Defs
pub mod System
pub mod Held
pub mod Accounting
pub mod Invariant
pub mod Waiters
mod Examples
pub use Defs.*
