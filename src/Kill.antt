-- ===== src/Kill.antt =====
-- src/kill.rs: the eviction pipeline, in the modules of its three parts: the scan for candidates,
-- the dispatch of one of them, and the pass that joins the two.
pub mod Window
pub mod Scan
pub mod Dispatch
pub mod Pass
pub mod Ceilings
pub mod Eligible
pub mod Order
pub mod Frame
pub mod Signals
pub mod Effects
pub mod Burst
pub mod Verdict
pub mod Rehearsal
pub mod Absent
pub mod Idle
