-- ===== src/SyncConnection/Classes.antt =====
-- The constructors of sync_connection.ipp, and the classes derived from sync_connection. What
-- resolving a name, connecting, setting an option and a handshake do is a parameter.
pub mod Tcp
pub mod TcpSsl
pub mod Udp
use cpp_alls.Prelude.{
  ℕ, String, List, [], M, Outcome, ok, throws, undefined, out_of_fuel, ◌>>=◌, ◌>>◌, continue_with,
}
use cpp_alls.Stream.Request
use cpp_alls.SyncConnection.Transport.{Socket}
use cpp_alls.SyncConnection.{Connection, on_socket}

-- `resolve` answers with the endpoints of an address and a port, `connect_any` tries them in turn.
pub record Resolver (T : Type 0) : Type 0 where
  pub resolve : String → String → Outcome (List ℕ)
  pub connect_any : List ℕ → T → Outcome (Unit {0}) × T
  pub set_no_delay : T → Outcome (Unit {0}) × T
  pub handshake : T → Outcome (Unit {0}) × T

-- The members of a connection before it is connected.
abbrev pub unconnected : {T : Type 0} → T → Connection T
unconnected t = record { request = Request.init; response = record { bytes = [] }; socket = t }

module _ {T : Type 0} (net : Resolver T) where
  -- `connect(Socket&, const char*, const char*)`
  abbrev pub connect : String → String → M T (Unit {0})
  connect address port t =
      continue_with (net.resolve address port, t) (λ endpoints. net.connect_any endpoints)

  -- `sync_connection(address, port, args...)`, on a new socket.
  abbrev pub create : String → String → T → Outcome (Unit {0}) × Connection T
  create address port t = on_socket (connect address port) (unconnected t)
