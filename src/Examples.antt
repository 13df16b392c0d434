-- ===== src/Examples.antt =====
-- Tests, and the theorems at concrete inputs.
mod Clocks
mod Values
mod Lifecycles
mod Stores
mod Clients
mod Writes
mod Leases
mod Flushes
mod Telemetries
mod Observers
mod Databases
mod Sessions
mod Payloads
mod Threads
mod Backends
