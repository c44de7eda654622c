-- ===== src/Server.antt =====
-- src/core/server.cpp: the server that reads a configuration and runs the applications it names.
-- Log output is left out, except for which logger is in use.
pub mod Env
pub mod Config
pub mod Instances
pub mod Operations
pub mod Interface
pub mod CommandLine
pub mod Version
