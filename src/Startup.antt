-- ===== src/Startup.antt =====
-- src/daemon.rs: the configuration reload, the start-up record, the index of the running processes
-- and the detection of system components; src/probe.rs, the readers of command outputs.
pub mod Probe
pub mod Reload
pub mod Seed
pub mod Equal
pub mod Announce
pub mod Exclusions
