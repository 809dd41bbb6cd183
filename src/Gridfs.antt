-- ===== src/Gridfs.antt =====
-- mongodb-cwal-rs-master/src/gridfs: files that are stored in chunks.
pub mod Gfs
pub mod File
pub mod Write
pub mod Read
pub mod Close
pub mod Frame
pub mod Keeping
pub mod Tracking
pub mod Flushed
pub mod Upload
pub mod Returns
pub mod Found
pub mod RoundTrip
pub mod Failing
pub mod Termination
pub mod Examples
pub mod Writing
pub mod Chunks
pub mod Content
pub mod Reading
pub mod Refinement
pub mod Second
pub mod Cut
mod CutExamples
