-- ===== src/SyncConnection/Buffered.antt =====
-- What the operations of sync_connection.ipp leave behind on a stream.
use cpp_alls.Prelude.{
  ℕ, ◌+◌, ◌-◌, ◌%◌, ◌^◌, ◌<◌, ◌≡◌, refl, ap, ◌∙◌, [], ◌++◌, arith, length, take, take-length, ok, M,
  ltb, lt→ltb, true,
}
use cpp_alls.Stream.Response
use cpp_alls.Stream.Request.{extract_data}
use cpp_alls.SyncConnection.Transport.{Socket, IsStream}
use cpp_alls.SyncConnection.SendLoop.{write_loop-Sent}
use cpp_alls.SyncConnection.{Connection, write_loop, write_without_size, extract, on_request}

module _ (io : Socket) (stream : IsStream io) where
  open stream use {sent, incoming}

  -- The response is sent and empty; nothing else has changed.
  pub record Flushed (c d : Connection io.State) : Type 0 where
    pub bytes : sent d.socket ≡ sent c.socket ++ c.response.bytes
    pub kept : incoming d.socket ≡ incoming c.socket
    pub request : d.request ≡ c.request
    pub response : d.response.bytes ≡ []

  write_after_loop :
      (c d : Connection io.State)
      → length c.response.bytes < 2 ^ 32
      → write_loop io (length c.response.bytes) c.response.bytes 0 (length c.response.bytes) c
        ≡ (ok tt, d)
      → write_without_size io c ≡ (ok tt, record d { response = Response.clear d.response })
  unfolding write_without_size
  write_after_loop c d h e = rw (fits, e) refl
    where
      fits : length c.response.bytes % 2 ^ 32 ≡ length c.response.bytes
      fits = omega arith

  -- A response of fewer than 2^32 bytes goes out whole and in order, and is cleared.
  pub write_without_size-Flushed :
      (c : Connection io.State)
      → length c.response.bytes < 2 ^ 32
      → (d : Connection io.State) × (write_without_size io c ≡ (ok tt, d)) × Flushed c d
  unfolding Response.clear
  write_without_size-Flushed c h =
      let size = length c.response.bytes in
      let (d, e, r) =
        write_loop-Sent io stream size c.response.bytes 0 size c (omega arith) (omega arith)
          (omega arith) in
      (
        record d { response = Response.clear d.response },
        write_after_loop c d h e,
        record {
          bytes =
              r.bytes
              ∙ ap (λ k. sent c.socket ++ take k c.response.bytes) (omega arith)
              ∙ ap (◌++◌ (sent c.socket)) (take-length c.response.bytes);
          kept = r.kept;
          request = r.request;
          response = refl;
        },
      )

  -- `extract_data` on a connection that has nothing left to extract.
  pub extract_drained :
      (read : ℕ → M (Connection io.State) (Unit {0})) (size : ℕ) (c d : Connection io.State)
      → c.request.data_extracted ≡ length c.request.bytes
      → 0 < size
      → size + length c.request.bytes < 2 ^ 64
      → read size c ≡ (ok tt, d)
      → extract io read size c ≡ on_request (extract_data size) d
  unfolding extract
  extract_drained read size c d drained pos fits e = rw (test, missing, e) refl
    where
      wanted : ℕ
      wanted = (size + c.request.data_extracted) % 2 ^ 64

      test : ltb (length c.request.bytes) wanted ≡ true
      test = lt→ltb _ _ (omega (arith, drained))

      missing : wanted - length c.request.bytes ≡ size
      missing = omega (arith, drained)
