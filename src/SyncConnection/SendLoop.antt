-- ===== src/SyncConnection/SendLoop.antt =====
-- The transfer loops of sync_connection.ipp that send, over a stream.
use mathlib.Core.List.{append_assoc, append-nil}
use native.Mathlib.Decide.{dec_lt}
use cpp_alls.Prelude.{
  ℕ, zero, suc, ◌+◌, ◌-◌, ◌≤◌, ◌<◌, ◌≡◌, refl, sym, ap, ◌∙◌, List, ◌++◌, arith, length, take, drop,
  ok, length-drop, length-take, drop-drop, take-take, take-add,
}
use cpp_alls.SyncConnection.Transport.{Socket, IsStream}
use cpp_alls.SyncConnection.{Connection, write_loop}

module _ (io : Socket) (stream : IsStream io) where
  open stream use {sent, incoming, send_lem, receive_lem}

  -- What the loop has done when it stops: the rest of the buffer is sent, and no more.
  pub record Sent (buffer : List ℕ) (offset size : ℕ) (c d : Connection io.State) : Type 0 where
    pub bytes : sent d.socket ≡ sent c.socket ++ take (size - offset) (drop offset buffer)
    pub kept : incoming d.socket ≡ incoming c.socket
    pub request : d.request ≡ c.request
    pub response : d.response ≡ c.response

  length-chunk :
      (buffer : List ℕ) (offset size : ℕ)
      → size ≤ length buffer
      → length (take (size - offset) (drop offset buffer)) ≡ size - offset
  length-chunk buffer offset size h =
      length-take (size - offset) (drop offset buffer) (omega (arith, length-drop offset buffer))

  write_loop_end :
      (fuel : ℕ) (buffer : List ℕ) (size : ℕ) (c : Connection io.State)
      → write_loop io fuel buffer size size c ≡ (ok tt, c)
  unfolding write_loop
  write_loop_end zero buffer size c = ground arith
  write_loop_end (suc fuel) buffer size c = ground arith

  write_loop_round :
      (fuel : ℕ) (buffer : List ℕ) (offset size n : ℕ) (c : Connection io.State) (u : io.State)
      → offset < size
      → io.send (take (size - offset) (drop offset buffer)) c.socket ≡ (ok n, u)
      → write_loop io (suc fuel) buffer offset size c
        ≡ write_loop io fuel buffer (offset + n) size (record c { socket = u })
  unfolding write_loop
  write_loop_round fuel buffer offset size n c u h e = ground (arith, e)

  write_loop_done :
      (fuel : ℕ) (buffer : List ℕ) (offset size : ℕ) (c : Connection io.State)
      → offset ≡ size
      → (d : Connection io.State) × (write_loop io fuel buffer offset size c ≡ (ok tt, d))
        × Sent buffer offset size c d
  write_loop_done fuel buffer offset size c e = (
    c,
    ap (λ o. write_loop io fuel buffer o size c) e ∙ write_loop_end fuel buffer size c,
    record {
      bytes =
          let nothing : 0 ≡ size - offset = omega arith in
          sym (append-nil (sent c.socket))
          ∙ ap (λ k. sent c.socket ++ take k (drop offset buffer)) nothing;
      kept = refl;
      request = refl;
      response = refl;
    },
  )

  -- Two stretches of the buffer that are sent in turn are sent as one.
  send_then :
      (buffer : List ℕ) (offset size n : ℕ) (before : List ℕ)
      → n ≤ size - offset
      → (before ++ take n (take (size - offset) (drop offset buffer)))
          ++ take (size - (offset + n)) (drop (offset + n) buffer)
        ≡ before ++ take (size - offset) (drop offset buffer)
  send_then buffer offset size n before h =
      append_assoc before _ _
      ∙ ap (◌++◌ before) (
          ap (λ l. l ++ take (size - (offset + n)) (drop (offset + n) buffer))
            (take-take n (size - offset) (drop offset buffer) h)
          ∙ ap (λ l. take n (drop offset buffer) ++ take (size - (offset + n)) l)
              (sym (drop-drop n offset buffer))
          ∙ sym (take-add n (size - (offset + n)) (drop offset buffer))
          ∙ ap (λ k. take k (drop offset buffer)) (omega arith))

  pub write_loop-Sent :
      (fuel : ℕ) (buffer : List ℕ) (offset size : ℕ) (c : Connection io.State)
      → size ≤ length buffer
      → offset ≤ size
      → size ≤ offset + fuel
      → (d : Connection io.State) × (write_loop io fuel buffer offset size c ≡ (ok tt, d))
        × Sent buffer offset size c d
  write_loop-Sent zero buffer offset size c fits h k =
      write_loop_done zero buffer offset size c (omega arith)
  write_loop-Sent (suc fuel) buffer offset size c fits h k = elim (dec_lt offset size) [
    | no stop ↦ write_loop_done (suc fuel) buffer offset size c (omega arith)
    | yes more ↦
        let chunk = length-chunk buffer offset size fits in
        let (n, u, e, pos, small, out, kept) =
          send_lem (take (size - offset) (drop offset buffer)) c.socket (omega (arith, chunk)) in
        let rest =
          write_loop-Sent fuel buffer (offset + n) size (record c { socket = u }) fits
            (omega (arith, chunk, small)) (omega (arith, pos)) in
        (
          rest.0,
          write_loop_round fuel buffer offset size n c u more e ∙ rest.1,
          record {
            bytes =
                rest.2.bytes
                ∙ ap (λ l. l ++ take (size - (offset + n)) (drop (offset + n) buffer)) out
                ∙ send_then buffer offset size n (sent c.socket) (omega (arith, chunk, small));
            kept = rest.2.kept ∙ kept;
            request = rest.2.request;
            response = rest.2.response;
          },
        )
  ]
