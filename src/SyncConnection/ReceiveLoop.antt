-- ===== src/SyncConnection/ReceiveLoop.antt =====
-- The transfer loops of sync_connection.ipp that receive, over a stream.
use mathlib.Core.List.{append_assoc, append-nil}
use mathlib.Core.Path.{ap₂}
use native.Mathlib.Decide.{dec_lt}
use cpp_alls.Prelude.{
  ℕ, zero, suc, ◌+◌, ◌-◌, ◌≤◌, ◌<◌, ◌≡◌, refl, sym, ap, ◌∙◌, List, [], ◌++◌, arith, length, take,
  drop, ok, length-drop, length-take, drop-drop, length-append, take-append, take-length, take-add,
}
use cpp_alls.SyncConnection.Transport.{Socket, IsStream}
use cpp_alls.SyncConnection.{Connection, read_loop, overwrite}

-- Two stretches that are received in turn are received as one.
receive_then :
    (inc before : List ℕ) (offset size n : ℕ)
    → n ≤ length inc
    → n ≤ size - offset
    → (before ++ take n inc) ++ take (size - (offset + length (take n inc))) (drop n inc)
      ≡ before ++ take (size - offset) inc
receive_then inc before offset size n there small =
    append_assoc before (take n inc) _
    ∙ ap (λ k. before ++ (take n inc ++ take k (drop n inc)))
        (omega (arith, length-take n inc there))
    ∙ ap (◌++◌ before) (sym (take-add n (size - offset - n) inc))
    ∙ ap (λ k. before ++ take k inc) (omega arith)

-- Bytes written into a buffer from an offset on.
length-overwrite :
    (offset : ℕ) (received buffer : List ℕ)
    → offset + length received ≤ length buffer
    → length (overwrite offset received buffer) ≡ length buffer
length-overwrite offset received buffer h = omega (
  arith,
  length-append (take offset buffer) (received ++ drop (offset + length received) buffer),
  length-append received (drop (offset + length received) buffer),
  length-take offset buffer (omega arith),
  length-drop (offset + length received) buffer,
)

take-overwrite :
    (offset : ℕ) (received buffer : List ℕ)
    → offset + length received ≤ length buffer
    → take (offset + length received) (overwrite offset received buffer)
      ≡ take offset buffer ++ received
take-overwrite offset received buffer h =
    ap (take (offset + length received))
      (sym (append_assoc (take offset buffer) received (drop (offset + length received) buffer)))
    ∙ ap (λ k. take k ((take offset buffer ++ received) ++ drop (offset + length received) buffer))
        (omega (
          arith,
          length-append (take offset buffer) received,
          length-take offset buffer (omega arith),
        ))
    ∙ take-append (take offset buffer ++ received) (drop (offset + length received) buffer)

module _ (io : Socket) (stream : IsStream io) where
  open stream use {sent, incoming, receive_lem}

  -- What the loop has done when it stops: the buffer is full of what came in, and no more was taken.
  pub record Received (offset size : ℕ) (c d : Connection io.State) : Type 0 where
    pub bytes :
        d.request.bytes ≡ take offset c.request.bytes ++ take (size - offset) (incoming c.socket)
    pub start : d.request.data_extracted ≡ 0
    pub left : incoming d.socket ≡ drop (size - offset) (incoming c.socket)
    pub kept : sent d.socket ≡ sent c.socket
    pub response : d.response ≡ c.response

  read_loop_end :
      (fuel size : ℕ) (c : Connection io.State) → read_loop io fuel size size c ≡ (ok tt, c)
  unfolding read_loop
  read_loop_end zero size c = ground arith
  read_loop_end (suc fuel) size c = ground arith

  abbrev stored : Connection io.State → io.State → ℕ → List ℕ → Connection io.State
  stored c u offset received = record c {
    request = record {
      bytes = overwrite (c.request.data_extracted + offset) received c.request.bytes;
      data_extracted = c.request.data_extracted;
    };
    socket = u;
  }

  read_loop_round :
      (fuel offset size : ℕ) (received : List ℕ) (c : Connection io.State) (u : io.State)
      → offset < size
      → io.receive (size - offset) c.socket ≡ (ok received, u)
      → read_loop io (suc fuel) offset size c
        ≡ read_loop io fuel (offset + length received) size (stored c u offset received)
  unfolding read_loop
  read_loop_round fuel offset size received c u h e = ground (arith, e)

  read_loop_done :
      (fuel offset size : ℕ) (c : Connection io.State)
      → c.request.data_extracted ≡ 0
      → length c.request.bytes ≡ size
      → offset ≡ size
      → (d : Connection io.State) × (read_loop io fuel offset size c ≡ (ok tt, d))
        × Received offset size c d
  read_loop_done fuel offset size c z len e =
      let nothing : 0 ≡ size - offset = omega arith in
      let all : length c.request.bytes ≡ offset = omega arith in
      (
        c,
        ap (λ o. read_loop io fuel o size c) e ∙ read_loop_end fuel size c,
        record {
          bytes =
              sym (take-length c.request.bytes)
              ∙ sym (append-nil (take (length c.request.bytes) c.request.bytes))
              ∙ ap (λ k. take k c.request.bytes ++ []) all
              ∙ ap (λ k. take offset c.request.bytes ++ take k (incoming c.socket)) nothing;
          start = z;
          left = ap (λ k. drop k (incoming c.socket)) nothing;
          kept = refl;
          response = refl;
        },
      )

  module _ (offset size n : ℕ) (c d : Connection io.State) (u : io.State)
      (z : c.request.data_extracted ≡ 0) (len : length c.request.bytes ≡ size)
      (more : offset < size) (small : n ≤ size - offset) (there : n ≤ length (incoming c.socket))
      (left : incoming u ≡ drop n (incoming c.socket)) (kept : sent u ≡ sent c.socket) where
    abbrev inc : List ℕ
    inc = incoming c.socket

    abbrev received : List ℕ
    received = take n inc

    abbrev after_round : ℕ
    after_round = offset + length received

    got : length received ≡ n
    got = length-take n inc there

    whole :
        overwrite (c.request.data_extracted + offset) received c.request.bytes
        ≡ overwrite offset received c.request.bytes
    whole = ap (λ o. overwrite o received c.request.bytes) (omega (arith, z))

    length-stored : length (stored c u offset received).request.bytes ≡ size
    length-stored =
        ap length whole
        ∙ length-overwrite offset received c.request.bytes (omega (arith, got))
        ∙ len

    stored_enough : size - offset ≤ length inc → size - after_round ≤ length (incoming u)
    stored_enough enough = omega (arith, got, ap length left, length-drop n inc)

    round_bytes :
        take after_round (stored c u offset received).request.bytes
          ++ take (size - after_round) (incoming u)
        ≡ take offset c.request.bytes ++ take (size - offset) inc
    round_bytes =
        ap₂ ◌++◌
          (ap (take after_round) whole
            ∙ take-overwrite offset received c.request.bytes (omega (arith, got)))
          (ap (take (size - after_round)) left)
        ∙ receive_then inc (take offset c.request.bytes) offset size n there small

    round_left : drop (size - after_round) (incoming u) ≡ drop (size - offset) inc
    round_left =
        ap (drop (size - after_round)) left
        ∙ drop-drop (size - after_round) n inc
        ∙ ap (λ j. drop j inc) (omega (arith, got))

    round-Received :
        Received after_round size (stored c u offset received) d → Received offset size c d
    round-Received r = record {
      bytes = r.bytes ∙ round_bytes;
      start = r.start;
      left = r.left ∙ round_left;
      kept = r.kept ∙ kept;
      response = r.response;
    }

  pub read_loop-Received :
      (fuel offset size : ℕ) (c : Connection io.State)
      → c.request.data_extracted ≡ 0
      → length c.request.bytes ≡ size
      → offset ≤ size
      → size ≤ offset + fuel
      → size - offset ≤ length (incoming c.socket)
      → (d : Connection io.State) × (read_loop io fuel offset size c ≡ (ok tt, d))
        × Received offset size c d
  read_loop-Received zero offset size c z len h k enough =
      read_loop_done zero offset size c z len (omega arith)
  read_loop-Received (suc fuel) offset size c z len h k enough = elim (dec_lt offset size) [
    | no stop ↦ read_loop_done (suc fuel) offset size c z len (omega arith)
    | yes more ↦
        let (n, u, e, pos, small, there, left, kept) =
          receive_lem (size - offset) c.socket (omega arith) (omega arith) in
        let received = take n (incoming c.socket) in
        let got = length-take n (incoming c.socket) there in
        let rest =
          read_loop-Received fuel (offset + length received) size (stored c u offset received) z
            (length-stored offset size n c c u z len more small there left kept)
            (omega (arith, got)) (omega (arith, got, pos))
            (stored_enough offset size n c c u z len more small there left kept enough) in
        (
          rest.0,
          read_loop_round fuel offset size received c u more e ∙ rest.1,
          round-Received offset size n c rest.0 u z len more small there left kept rest.2,
        )
  ]
