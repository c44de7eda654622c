-- ===== src/SyncConnection/Classes/Udp.antt =====
-- src/core/udp_connection.cpp.
use cpp_alls.Prelude.{ℕ, String, false, M, Outcome}
use cpp_alls.Stream.Scalar.{Host}
use cpp_alls.SyncConnection.Transport.{Socket}
use cpp_alls.SyncConnection.{Connection}
use cpp_alls.SyncConnection.Classes.{Resolver, create}
use cpp_alls.SyncConnection.Framed

module _ (io : Socket) where
  pub connection :
      Resolver io.State → String → String → io.State → Outcome (Unit {0}) × Connection io.State
  connection net address port t = create net address port t

  abbrev pub read : Host → ℕ → ℕ → M (Connection io.State) (Unit {0})
  read host fuel size = Framed.read io host false fuel size

  abbrev pub write : Host → M (Connection io.State) (Unit {0})
  write host = Framed.write io host

  abbrev pub destroy : Host → Connection io.State → Connection io.State
  destroy host c = Framed.destroy io host false c
