-- ===== src/SyncConnection/Classes/TcpSsl.antt =====
-- src/core/tcp_ssl_connection.cpp: tcp_ssl_connection_raw, whose names begin with `raw`, and
-- tcp_ssl_connection.
use cpp_alls.Prelude.{ℕ, String, true, M, Outcome, ◌>>◌, continue_with}
use cpp_alls.Stream.Scalar.{Host}
use cpp_alls.SyncConnection.Transport.{Socket}
use cpp_alls.SyncConnection.{Connection, on_socket}
use cpp_alls.SyncConnection.Classes.{Resolver, create}
use cpp_alls.SyncConnection.Raw
use cpp_alls.SyncConnection.Framed

module _ (io : Socket) where
  pub raw_connection :
      Resolver io.State → String → String → io.State → Outcome (Unit {0}) × Connection io.State
  raw_connection net address port t =
      continue_with (create net address port t)
        (λ made. on_socket net.set_no_delay >> on_socket net.handshake)

  abbrev pub raw_read : ℕ → M (Connection io.State) (Unit {0})
  raw_read size = Raw.read io size

  abbrev pub raw_write : M (Connection io.State) (Unit {0})
  raw_write = Raw.write io

  abbrev pub raw_destroy : Connection io.State → Connection io.State
  raw_destroy c = Raw.destroy io true c

  pub connection :
      Resolver io.State → String → String → io.State → Outcome (Unit {0}) × Connection io.State
  connection net address port t =
      continue_with (create net address port t)
        (λ made. on_socket net.set_no_delay >> on_socket net.handshake)

  abbrev pub read : Host → ℕ → ℕ → M (Connection io.State) (Unit {0})
  read host fuel size = Framed.read io host true fuel size

  abbrev pub write : Host → M (Connection io.State) (Unit {0})
  write host = Framed.write io host

  abbrev pub destroy : Host → Connection io.State → Connection io.State
  destroy host c = Framed.destroy io host true c
