-- ===== src/SyncConnection/Framed/Layout.antt =====
-- Where write_with_size puts the size of a message.
use cpp_alls.Prelude.{
  ℕ, ◌+◌, ◌-◌, ◌%◌, ◌^◌, ◌≤◌, ◌<◌, ◌≡◌, refl, ap, ◌∙◌, List, [], ◌++◌, arith, length, take, drop,
  length-take, length-drop, length-append, take-length, ok, undefined, continue_with, false, ◌==◌,
}
use cpp_alls.Stream.Scalar.{Host, little_bytes, length-little_bytes}
use cpp_alls.Stream.Request.{StackRequest}
use cpp_alls.Stream.Response.{StackResponse, put_data}
use cpp_alls.Stream.Response
use cpp_alls.SyncConnection.Transport.{Socket, IsStream}
use cpp_alls.SyncConnection.SendLoop.{write_loop-Sent}
use cpp_alls.SyncConnection.{Connection, write_loop, on_response}
use cpp_alls.SyncConnection.Framed.{send_response, write}

-- The header of a message of so many bytes.
abbrev pub header : ℕ → List ℕ
header n = little_bytes 4 (n + 4)

-- The header four bytes into the message.
abbrev pub misplaced : List ℕ → List ℕ
misplaced body = take 4 body ++ (header (length body) ++ drop 4 body)

put_header :
    (body : List ℕ)
    → 4 ≤ length body
    → put_data (header (length body)) 0 (record { bytes = body })
      ≡ (ok tt, record { bytes = misplaced body })
unfolding put_data
put_header body h = ground (arith, length-little_bytes 4 (length body + 4))

put_header_short :
    (body : List ℕ)
    → 0 < length body
    → length body < 4
    → put_data (header (length body)) 0 (record { bytes = body })
      ≡ (undefined, record { bytes = body })
unfolding put_data
put_header_short body p h = ground (arith, length-little_bytes 4 (length body + 4))

take_whole : (bytes : List ℕ) (k : ℕ) → length bytes ≡ k → take (k - 0) bytes ≡ bytes
take_whole bytes k h = ap (λ n. take n bytes) (omega (arith, h)) ∙ take-length bytes

length-misplaced : (body : List ℕ) → 4 ≤ length body → length (misplaced body) ≡ length body + 4
length-misplaced body h = omega (
  arith,
  length-append (take 4 body) (header (length body) ++ drop 4 body),
  length-append (header (length body)) (drop 4 body),
  length-take 4 body h,
  length-drop 4 body,
  length-little_bytes 4 (length body + 4),
)

module _ (io : Socket) (host : Host) (r : StackRequest) (body : List ℕ) (t : io.State) where
  abbrev pub holding : List ℕ → Connection io.State
  holding bytes = record { request = r; response = record { bytes = bytes }; socket = t }

  write-header :
      0 < length body
      → length body + 4 < 2 ^ 32
      → write io host (holding body)
        ≡ continue_with
            (on_response (put_data (header (length body)) 0) (holding body))
            (λ _. send_response io host (length body + 4))
  unfolding write
  write-header pos fits = rw (test, fits', host.native_to_little_lem) refl
    where
      test : (length body == 0) ≡ false
      test = ground arith

      fits' : (length body + 4) % 2 ^ 32 ≡ length body + 4
      fits' = omega arith

  -- A message of one to three bytes makes write_with_size insert the size past the end of the
  -- buffer.
  pub write_short : 0 < length body → length body < 4 → (write io host (holding body)).0 ≡ undefined
  write_short pos short = rw (write-header pos (omega arith), put_header_short body pos short) refl

  module _ (stream : IsStream io) where
    open stream use {sent, incoming}

    send_after_loop :
        (size : ℕ) (bytes : List ℕ) (d : Connection io.State)
        → write_loop io size bytes 0 size (holding bytes) ≡ (ok tt, d)
        → send_response io host size (holding bytes)
          ≡ (ok tt, record d { response = Response.clear d.response })
    unfolding send_response
    send_after_loop size bytes d e = rw e refl

    -- Over a stream, the write_with_size of a message of at least four bytes, and of fewer than
    -- 2^32 with its header, sends the first four bytes of the message, then the size of message and
    -- header, then the rest of the message, and empties the response.
    pub write-misplaced :
        4 ≤ length body
        → length body + 4 < 2 ^ 32
        → (d : Connection io.State) × (write io host (holding body) ≡ (ok tt, d))
          × (sent d.socket ≡ sent t ++ misplaced body)
          × (d.response.bytes ≡ [])
    unfolding Response.clear
    write-misplaced long fits =
        let size = length body + 4 in
        let bytes = misplaced body in
        let exact = length-misplaced body long in
        let (d, e, s) =
          write_loop-Sent io stream size bytes 0 size (holding bytes) (omega (arith, exact))
            (omega arith) (omega arith) in
        (
          record d { response = Response.clear d.response },
          write-header (omega arith) fits
              ∙ rw (put_header body long) (send_after_loop size bytes d e),
          s.bytes ∙ ap (◌++◌ (sent t)) (take_whole bytes size exact),
          refl,
        )
