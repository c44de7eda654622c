-- ===== src/SyncConnection.antt =====
-- src/core/sync_connection.ipp with its users tcp_connection.cpp, udp_connection.cpp and
-- tcp_ssl_connection.cpp: blocking connections that buffer what is written and read.
pub mod Transport
pub mod Raw
pub mod Framed
pub mod SendLoop
pub mod ReceiveLoop
pub mod Buffered
pub mod Classes
use cpp_alls.Prelude.{
  ℕ, zero, suc, ◌+◌, ◌-◌, ◌%◌, ◌^◌, ◌≡◌, List, [], ◌∷◌, ◌++◌, Bool, true, false, ltb, leb, ◌==◌,
  if◌then◌else◌, length, take, drop, M, Outcome, ok, throws, undefined, out_of_fuel, logic_error,
  raise, pure, ◌>>=◌, ◌>>◌, continue_with,
}
use cpp_alls.Stream.Scalar.{unsigned_int, width, Host, little_bytes}
use cpp_alls.Stream.Response.{StackResponse, put_data}
use cpp_alls.Stream.Response
use cpp_alls.Stream.Request.{StackRequest, extract_data, resize, shrink, get}
use cpp_alls.Stream.Request
use Transport.{Socket}

-- A sync_connection is a stack_request, and holds a response and a socket.
pub record Connection (T : Type 0) : Type 0 where
  pub request : StackRequest
  pub response : StackResponse
  pub socket : T

-- An operation on one part of the connection.
module _ {T A : Type 0} where
  abbrev pub on_socket : (T → Outcome A × T) → M (Connection T) A
  on_socket f c = let r = f c.socket in (r.0, record c { socket = r.1 })

  abbrev pub on_request : M StackRequest A → M (Connection T) A
  on_request f c = let r = f c.request in (r.0, record c { request = r.1 })

  abbrev pub on_response : M StackResponse A → M (Connection T) A
  on_response f c = let r = f c.response in (r.0, record c { response = r.1 })

-- The received bytes are in the buffer from the offset on.
abbrev pub overwrite : ℕ → List ℕ → List ℕ → List ℕ
overwrite offset received buffer =
    take offset buffer ++ (received ++ drop (offset + length received) buffer)

abbrev pub store : {T : Type 0} → ℕ → List ℕ → M (Connection T) (Unit {0})
store offset received c = (
  ok tt,
  record c {
    request = record {
      bytes = overwrite (c.request.data_extracted + offset) received c.request.bytes;
      data_extracted = c.request.data_extracted;
    };
  },
)

module _ (io : Socket) where
  -- `write_witout_size_impl` from `offset`. A round moves `offset` up by what the socket took, so
  -- `size` rounds are enough where it takes something in each.
  pub write_loop : ℕ → List ℕ → ℕ → ℕ → M (Connection io.State) (Unit {0})
  write_loop zero buffer offset size = if offset == size then pure tt else (λ c. (out_of_fuel, c))
  write_loop (suc fuel) buffer offset size = elim (offset == size) [
    | true ↦ pure tt
    | false ↦ do
      n ← on_socket (io.send (take (size - offset) (drop offset buffer)))
      write_loop fuel buffer (offset + n) size
  ]

  -- `const unsigned int size = response_.end() - response_.begin();`
  pub write_without_size : M (Connection io.State) (Unit {0})
  write_without_size c =
      (do
        let size = length c.response.bytes % 2 ^ 32
        write_loop size c.response.bytes 0 size
        on_response (λ r. (ok tt, Response.clear r)))
        c

  pub read_loop : ℕ → ℕ → ℕ → M (Connection io.State) (Unit {0})
  read_loop zero offset size = if offset == size then pure tt else (λ c. (out_of_fuel, c))
  read_loop (suc fuel) offset size = elim (offset == size) [
    | true ↦ pure tt
    | false ↦ do
      received ← on_socket (io.receive (size - offset))
      store offset received
      read_loop fuel (offset + length received) size
  ]

  abbrev pub make_room : ℕ → M (Connection io.State) (Unit {0})
  make_room size = on_request (λ r. (ok tt, resize size (shrink r)))

  -- `extract_data` with the class's `read` for what is missing.
  pub extract : (ℕ → M (Connection io.State) (Unit {0})) → ℕ → M (Connection io.State) (List ℕ)
  extract read size c =
      (do
        let wanted = (size + c.request.data_extracted) % 2 ^ 64
        if ltb (length c.request.bytes) wanted
            then read (wanted - length c.request.bytes)
            else pure tt
        on_request (extract_data size))
        c

  -- `shutdown_and_close_impl`: an SSL stream is shut down and not closed.
  pub shutdown_and_close : Bool → M (Connection io.State) (Unit {0})
  shutdown_and_close is_ssl c =
      let t = io.shutdown c.socket in
      (ok tt, record c { socket = if is_ssl then t else io.close t })

  pub close : M (Connection io.State) (Unit {0}) → Bool → M (Connection io.State) (Unit {0})
  close write is_ssl = do write; shutdown_and_close is_ssl
