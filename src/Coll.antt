-- ===== src/Coll.antt =====
-- mongodb-cwal-rs-master/src/coll: write models, their batches, and bulk writes with their results.
pub mod Models
pub mod Batches
pub mod Runs
pub mod Partition
pub mod Results
pub mod Writes
pub mod Bulk
pub mod Single
pub mod Concern
pub mod Replies
pub mod Reports
pub mod Lost
pub mod Examples
mod SingleExamples
