-- ===== src/Network.antt =====
-- What the servers of src/apps/boost_tcp share: the completions that Boost.Asio delivers, the
-- configuration of a server, and the listening sockets with the accepts that wait on them.
pub mod Accepts
pub mod Lookup
pub mod Closing
pub mod Tcp
pub mod TcpSsl
pub mod Udp
use cpp_alls.Prelude.{
  ℕ, ◌+◌, List, [], ◌∷◌, ◌++◌, Option, none, some, Bool, true, false, ◌==◌, if◌then◌else◌, map,
  Outcome,
}
use cpp_alls.AsyncConnection.{Connection, Handler}

-- The error code that a handler gets: success, `operation_aborted`, or another one.
pub data Completion : Type 0 where
  success aborted : Completion
  failed : ℕ → Completion

-- What is looked up or asked for at `start`: the applications by their names, the address and the
-- port, the socket that listens there, its options, and for SSL the context with its files.
pub record Config : Type 0 where
  pub logger : Outcome ℕ
  pub processor : Outcome ℕ
  pub io_service : Outcome ℕ
  pub endpoint : Outcome (Unit {0})
  pub listen : Outcome (Unit {0})
  pub reuse_address : Bool
  pub set_reuse_address : Outcome (Unit {0})
  pub nodelay : Bool
  pub context : Outcome (Unit {0})

-- An async_accept under way, with the connection that it fills and that connection's processor;
-- `result` is there once the operation has completed and its handler waits to be run.
pub record Accept : Type 0 where
  pub acceptor : ℕ
  pub handler : Handler
  pub connection : Connection
  pub processor : Option ℕ
  pub result : Option Completion

-- What has been done: a connection handed to a processor, or a warning written to a logger, which
-- may be null.
pub data Event : Type 0 where
  served : ℕ → Connection → Event
  warned : Option ℕ → Completion → Event

-- What the code takes from outside: `::operator new`, the bytes of a handler, and what setting
-- no_delay on an accepted socket and calling a processor return or throw, after these events.
pub record Host : Type 0 where
  pub operator_new : ℕ → ℕ
  pub handler_size : ℕ
  pub set_no_delay : Bool → List Event → Outcome (Unit {0})
  pub process : ℕ → Connection → List Event → Outcome (Unit {0})

-- The result of an operation, when the acceptor that it waits on is closed or another one is.
abbrev pub abort_result : Bool → Option Completion → Option Completion
abort_result true none = some aborted
abort_result false none = none
abort_result closed (some e) = some e

abbrev pub abort : ℕ → Accept → Accept
abort acceptor a = record a { result = abort_result (a.acceptor == acceptor) a.result }

-- `acceptor_->close()`: what waits on it completes with operation_aborted.
abbrev pub close : ℕ → List Accept → List Accept
close acceptor accepts = map (abort acceptor) accepts
