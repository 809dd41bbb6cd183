-- ===== src/Topology.antt =====
-- mongodb-cwal-rs-master/src/topology: server descriptions, the topology and its updates, and server
-- selection.
pub mod Server
pub mod State
pub mod Servers
pub mod Cases
pub mod Rule
pub mod Invariant
pub mod Election
pub mod Update
pub mod Primary
pub mod Classify
pub mod Missed
pub mod Answer
pub mod Monitor
pub mod Reported
pub mod Told
pub mod Reports
mod Heartbeats
pub mod Transitions
pub mod Selection
pub mod Handle
pub mod Selected
mod SelectedExamples
pub mod Examples
