-- ===== src/SyncConnection/Framed.antt =====
-- tcp_connection, udp_connection and tcp_ssl_connection: each write is meant to go out behind its
-- size, and a read takes a whole message.
pub mod Layout
pub mod Starved
pub mod Message
use cpp_alls.Prelude.{
  ℕ, zero, suc, ◌+◌, ◌%◌, ◌^◌, Bool, true, false, List, ◌==◌, if◌then◌else◌, length, M, Outcome, ok,
  throws, undefined, out_of_fuel, logic_error, raise, pure, ◌>>=◌, ◌>>◌, continue_with,
}
use cpp_alls.Stream.Scalar.{unsigned_int, Host}
use cpp_alls.Stream.Response.{put_data}
use cpp_alls.Stream.Response
use cpp_alls.Stream.Request.{get, shrink, resize}
use cpp_alls.SyncConnection.Transport.{Socket}
use cpp_alls.SyncConnection.{
  Connection, on_socket, on_response, write_loop, on_request, read_loop, extract, close,
}

module _ (io : Socket) (host : Host) where
  open host use {object_bytes, object_value, native_to_little, little_to_native}

  send_response : ℕ → M (Connection io.State) (Unit {0})
  send_response size c =
      (do write_loop io size c.response.bytes 0 size; on_response (λ r. (ok tt, Response.clear r)))
        c

  -- `write_with_size`
  pub write : M (Connection io.State) (Unit {0})
  write c =
      if length c.response.bytes == 0
      then (ok tt, c)
      else (do
        let size = (length c.response.bytes + 4) % 2 ^ 32
        on_response (put_data (object_bytes 4 (native_to_little 4 size)) 0)
        send_response size)
          c

  -- An SSL stream has the size read from it, and one that is not filled is not to be used; of a
  -- plain socket it is what is available.
  pub data_size : Bool → M (Connection io.State) ℕ
  data_size false = on_socket io.available
  data_size true = do
    size ← on_socket (io.receive 4)
    if length size == 4
        then pure (little_to_native 4 (object_value size))
        else (λ c. (undefined, c))

  -- `read_with_size`; `fuel` bounds how deep the check of the size, which extracts from the
  -- connection, calls back into it.
  pub read : Bool → ℕ → ℕ → M (Connection io.State) (Unit {0})
  read is_ssl zero wanted = λ c. (out_of_fuel, c)
  read is_ssl (suc fuel) wanted = do
    write
    on_request (λ r. (ok tt, shrink r))
    size ← data_size is_ssl
    on_request (λ r. (ok tt, resize size r))
    read_loop io size 0 size
    if is_ssl then pure tt else (do
      actual_size ← get host (extract io (read is_ssl fuel)) unsigned_int
      if size == actual_size then pure tt else raise logic_error)

  pub extract_data : Bool → ℕ → ℕ → M (Connection io.State) (List ℕ)
  extract_data is_ssl fuel size = extract io (read is_ssl fuel) size

  -- The destructors drop what `close` throws.
  pub destroy : Bool → Connection io.State → Connection io.State
  destroy is_ssl c = (close io write is_ssl c).1
