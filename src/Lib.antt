-- ===== src/Lib.antt =====
-- The core of the cpp-alls server library: applications are loaded from plug-ins, configured by
-- a YAML file and found by name; processors of connections read requests and write responses.
--
-- Parts, and the files that model them:
-- - Slab: include/cppalls/core/slab_allocator.hpp. `Slab` is the object, of which `in_use` is
--   `in_use_`; `allocate` and `deallocate` are the functions of that name. Slab/Arena is what
--   they promise: a list of free blocks and allocations, searched first-fit. Slab/History is any
--   sequence of allocations and releases. Slab/Ref is
--   include/cppalls/core/slab_allocator_ref.hpp.
-- - Stream: include/cppalls/core/request.hpp, response.hpp, stack_request.hpp,
--   stack_response.hpp and the files src/core/request.cpp, response.cpp, stack_request.cpp and
--   stack_response.cpp. Stream/Response has `put_data` and the operators << as `put`,
--   `put_string` and `put_vector`; Stream/Request has `extract_data` and the operators >> as
--   `get`, `get_string` and `get_vector`. Stream/Request/Reader is what a source of bytes has to
--   promise for the operators >> to read from it; a stack_request (Stream/Request/Decode) and a
--   connection (SyncConnection/Raw/Receives) do.
-- - SyncConnection: src/core/sync_connection.ipp, with src/core/tcp_connection.cpp,
--   udp_connection.cpp and tcp_ssl_connection.cpp. A connection is a request and a response of
--   Stream with a socket. Raw has the connections without, Framed those with the size of a
--   message; Classes has the constructors, and in Classes/Tcp, Classes/TcpSsl and Classes/Udp
--   the classes, of which those without the size have names that begin with `raw`.
-- - AsyncConnection: src/apps/boost_tcp/async_connection_fast.hpp, handler_allocator.hpp and
--   to_std_error_code.cpp. `async_read` and `async_write` start an operation, `read_done` and
--   `write_done` are its completion with the callback. It uses Slab for the memory of the
--   handlers. AsyncConnection/Members is what a connection keeps beside it.
-- - MemberCallback: include/cppalls/core/connection.hpp, the reads and writes whose callback is
--   a member function of the connection's processor, on top of AsyncConnection.
-- - Network: the servers of src/apps/boost_tcp. Network/Tcp is tcp.cpp, Network/TcpSsl
--   tcp_ssl.cpp and Network/Udp udp.cpp; `start`, `stop` and `reload` are the functions of that
--   name, `accept` is `accept`, `on_accept` is `on_accpet`. A state is the members of the
--   server, with the operations under way and what has been done; `complete` runs the handler of
--   an operation that has completed. `Step` and `Reachable` are the calls and completions in any
--   order that they allow. Network/Lookup is what they take at `start` from their configuration
--   and the running server, Network/Closing the closing of a connection, and Network/Udp/Helper
--   class udp_helper.
-- - Exchange: the blocking connections with the servers: a request and its reply in
--   Exchange/Serving and Exchange/Tcp, a datagram in Exchange/Udp.
-- - Logger: include/cppalls/api/logger.hpp and src/core/cpp_logger.cpp. Logger/Delayed is
--   delayed_logger, Logger/LoggerStream the stream of include/cppalls/core/logging.hpp, and
--   Logger/Boost src/apps/boost_logger/boost_logger.cpp.
-- - Server: src/core/server.cpp. Server/Config reads the configuration files and finds the
--   plug-ins, Server/Instances has the state and `start_instance`, Server/Operations the public
--   functions, Server/Interface the static functions that lead to them
--   (include/cppalls/core/server.hpp). Server/CommandLine has the options of the program, which
--   nothing reads, and Server/Version the versions of include/cppalls/api/application.hpp.
-- - StackPimpl: include/cppalls/core/detail/stack_pimpl.hpp, with the sizes of
--   boost_asio_fwd.hpp and boost_small_vector_fwd.hpp beside it.
-- - IoService: src/apps/boost_io_service/boost_io_service.cpp, the thread pool.
--
-- How they interact: the server starts, reloads and stops the applications, among them the
-- loggers, the thread pool and the servers of Network, which look their logger, their processor
-- and their thread pool up by name (`get_as` of Server/Operations, which Network/Lookup applies,
-- and which is an outcome for the rest of Network); a connection holds a request and a response,
-- and in an asynchronous one the slab allocator holds the handlers. Operations are functions
-- from the state to an outcome and the state left behind, also by an exception (Prelude/Effect).
--
-- Parameters: what `::operator new` returns; the memory of objects and Boost.Endian
-- (Stream/Scalar, `Host`); the socket (SyncConnection/Transport, `Socket`), and for some
-- theorems that it is a stream without errors (`IsStream`); resolving a name, connecting and the
-- SSL handshake (SyncConnection/Classes, `Resolver`); YAML, the file system, the plug-ins and
-- the applications (Server/Env); hardware_concurrency and thread creation (IoService, `Host`).
--
-- Bounds and fuel: an index or a size is a `std::size_t` of 64 bits and an `unsigned int` of 32,
-- with wrap-around where the code computes with them. The search of the allocator has one round
-- more than there are blocks, since a round moves on and a read behind the last block is
-- undefined; the loops of a connection have as many rounds as bytes, since a stream moves at
-- least one byte in each; a framed read is given how deep its check of the size may call back
-- into it.
--
-- Of Boost.Asio, the servers use that closing an acceptor completes what waits on it with
-- operation_aborted, that an operation which has completed keeps its result, and that the memory
-- of a handler is given back before the handler is run. The sizes of a handler and what sockets
-- and processors return are parameters (Network, Network/Udp, `Host`).
--
-- Not modelled: the buffer of an asynchronous read while another one resizes it, what a
-- processor does with a connection after its first call, the threads that run the handlers of
-- one server at the same time, what Boost.Log does with the settings that boost_logger gives it,
-- the steps of the SSL handshake itself, what the server and the pool write to the log, and
-- declarations without behaviour (include/cppalls/core/export.hpp and the like).
mod Prelude
mod Tests
pub mod Slab
pub mod StackPimpl
pub mod Stream
pub mod SyncConnection
pub mod AsyncConnection
pub mod MemberCallback
pub mod Logger
pub mod Network
pub mod Exchange
pub mod Server
pub mod IoService
