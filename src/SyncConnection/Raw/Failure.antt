-- ===== src/SyncConnection/Raw/Failure.antt =====
-- The raw connections after an error of the socket.
use cpp_alls.Prelude.{
  ℕ, suc, ◌+◌, ◌-◌, ◌%◌, ◌^◌, ◌<◌, ◌≡◌, refl, [], arith, length, replicate, length-replicate, ok,
  throws, Exception, ltb, lt→ltb, true, false,
}
use cpp_alls.Stream.Request.{StackRequest}
use cpp_alls.Stream.Response.{StackResponse}
use cpp_alls.Stream.Response
use cpp_alls.SyncConnection.Transport.{Socket}
use cpp_alls.SyncConnection.{Connection, write_loop, write_without_size, read_loop, extract}
use cpp_alls.SyncConnection.Raw.{write, read, extract_data}
use cpp_alls.SyncConnection.Raw.Transfer.{zeros, resize-shrink, extract_all}

module _ (io : Socket) where
  -- A connection that has nothing to send.
  abbrev pub quiet : StackRequest → io.State → Connection io.State
  quiet r t = record { request = r; response = record { bytes = [] }; socket = t }

  write_nothing :
      (r : StackRequest) (t : io.State) → write_without_size io (quiet r t) ≡ (ok tt, quiet r t)
  unfolding write_without_size write_loop Response.clear
  write_nothing r t = refl

  receive_fails :
      (size : ℕ) (t u : io.State) (e : Exception)
      → io.receive (suc size) t ≡ (throws e, u)
      → read_loop io (suc size) 0 (suc size) (quiet (zeros (suc size)) t)
        ≡ (throws e, quiet (zeros (suc size)) u)
  unfolding read_loop
  receive_fails size t u e h =
      let whole : suc size - 0 ≡ suc size = omega arith in ground (arith, whole, h)

  read_fails :
      (size : ℕ) (r : StackRequest) (t u : io.State) (e : Exception)
      → r.data_extracted ≡ length r.bytes
      → io.receive (suc size) t ≡ (throws e, u)
      → read io (suc size) (quiet r t) ≡ (throws e, quiet (zeros (suc size)) u)
  unfolding read write
  read_fails size r t u e drained h =
      rw (write_nothing r t, resize-shrink (suc size) r drained) (receive_fails size t u e h)

  extract_fails :
      (size : ℕ) (r : StackRequest) (t u : io.State) (e : Exception)
      → r.data_extracted ≡ length r.bytes
      → suc size + length r.bytes < 2 ^ 64
      → io.receive (suc size) t ≡ (throws e, u)
      → extract_data io (suc size) (quiet r t) ≡ (throws e, quiet (zeros (suc size)) u)
  unfolding extract_data extract
  extract_fails size r t u e drained fits h =
      rw (test, missing, read_fails size r t u e drained h) refl
    where
      wanted : ℕ
      wanted = (suc size + r.data_extracted) % 2 ^ 64

      test : ltb (length r.bytes) wanted ≡ true
      test = lt→ltb _ _ (omega (arith, drained))

      missing : wanted - length r.bytes ≡ suc size
      missing = omega (arith, drained)

  extract_buffered :
      (size : ℕ) (u : io.State)
      → size < 2 ^ 64
      → extract_data io size (quiet (zeros size) u) ≡ (
        ok (replicate size 0),
        quiet (record { bytes = replicate size 0; data_extracted = 0 + size }) u,
      )
  unfolding extract_data extract
  extract_buffered size u h =
      rw (test, extract_all size (zeros size) h (length-replicate size 0) refl) refl
    where
      test : ltb (length (replicate {A = ℕ} size 0)) ((size + 0) % 2 ^ 64) ≡ false
      test = ground (arith, length-replicate {A = ℕ} size 0)

  -- If the first receive of a raw read fails, the error is thrown, but the room made for the bytes
  -- stays in the buffer: the same extraction made again succeeds, asks nothing of the socket, and
  -- returns zeros. This is so on a connection with an empty response and nothing left to extract,
  -- for an extraction of at least one byte, where the buffer stays below 2^64 bytes.
  pub extract_data_after_failure :
      (size : ℕ) (r : StackRequest) (t u : io.State) (e : Exception)
      → r.data_extracted ≡ length r.bytes
      → suc size + length r.bytes < 2 ^ 64
      → io.receive (suc size) t ≡ (throws e, u)
      → let (failure, c) = extract_data io (suc size) (quiet r t) in
        let (again, d) = extract_data io (suc size) c in
        (failure ≡ throws e) × (again ≡ ok (replicate (suc size) 0)) × (d.socket ≡ c.socket)
  extract_data_after_failure size r t u e drained fits h =
      rw (extract_fails size r t u e drained fits h, extract_buffered (suc size) u (omega arith))
        (refl, refl, refl)
