-- ===== src/SyncConnection/Raw.antt =====
-- tcp_connection_raw and tcp_ssl_connection_raw: what is written goes out as it is, and a read asks
-- the socket for exactly the bytes that are missing.
pub mod Transfer
pub mod Receives
pub mod Failure
use cpp_alls.Prelude.{ℕ, Bool, List, M, Outcome, ok, throws, ◌>>=◌, ◌>>◌, continue_with}
use cpp_alls.SyncConnection.Transport.{Socket}
use cpp_alls.SyncConnection.{Connection, write_without_size, make_room, read_loop, extract, close}

module _ (io : Socket) where
  unfoldable pub write : M (Connection io.State) (Unit {0})
  write = write_without_size io

  -- `read_without_size`
  pub read : ℕ → M (Connection io.State) (Unit {0})
  read size = do write; make_room io size; read_loop io size 0 size

  pub extract_data : ℕ → M (Connection io.State) (List ℕ)
  extract_data size = extract io read size

  -- The destructor drops what `close` throws.
  pub destroy : Bool → Connection io.State → Connection io.State
  destroy is_ssl c = (close io write is_ssl c).1
