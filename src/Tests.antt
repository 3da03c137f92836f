-- ===== src/Tests.antt =====
-- The theorems of src/ at concrete inputs.
mod Sample
mod Probes
mod Collecting
mod Writing
mod Running
mod Programs
mod Sockets
mod Daemon
mod Whole
mod Threads
mod Flushing
mod Serving
mod Counting
mod Metering
mod Runners
mod Barriers
