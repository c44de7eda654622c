-- ===== src/Exchange.antt =====
-- What passes between the program's own clients and servers: the blocking connections of
-- src/core on the one side, the asynchronous ones and the servers of src/apps/boost_tcp on the other.
pub mod Serving
pub mod Tcp
pub mod Udp
