-- ===== src/Examples.antt =====
-- The theorems at concrete inputs, and runs of the definitions.
mod Kernels
mod Buffers
mod Pollers
mod Polls
mod Servers
mod Loops
mod Connections
mod Addresses
mod Threads
mod Echo
mod Protocols
mod Lives
mod Silences
mod Mains
mod Logs
mod Maps
