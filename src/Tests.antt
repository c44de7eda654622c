-- ===== src/Tests.antt =====
-- Runs of the model on concrete inputs, and the theorems at concrete inputs.
mod Allocation
mod Streams
mod Exchanges
mod Connections
mod Logs
mod Applications
mod Configurations
mod Lookups
mod Sockets
mod Datagrams
mod Handshakes
mod Members
mod Operations
