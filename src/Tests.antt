-- ===== src/Tests.antt =====
-- Runs of the model at inputs of the program's own tests, and the instances of the theorems.
mod Parsing
mod Fixtures
mod Kill
mod Daemon
mod Spawn
mod Telemetry
mod Reactor
mod Render
mod Log
