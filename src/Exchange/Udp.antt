-- ===== src/Exchange/Udp.antt =====
-- A message of a udp_connection, and the server for datagrams that receives it.
use cpp_alls.Prelude.{
  ℕ, ◌+◌, ◌^◌, ◌<◌, ◌≡◌, ◌≢◌, refl, sym, ap, ◌∙◌, List, [], ◌∷◌, ◌++◌, take, drop, take-append,
  drop-append, Option, some, arith, length, length-append, ok,
}
use cpp_alls.Stream.Scalar
use cpp_alls.Stream.Scalar.{little_bytes, length-little_bytes}
use cpp_alls.Stream.Request.{StackRequest}
use cpp_alls.Stream.Request.Decode.{at}
use cpp_alls.SyncConnection.Transport.{Socket, IsStream}
use cpp_alls.SyncConnection.Framed.Layout.{header, misplaced, holding, write-misplaced}
use cpp_alls.SyncConnection
use cpp_alls.SyncConnection.Classes.Udp.{write}
use cpp_alls.Slab.{Pointer}
use cpp_alls.Slab.Lifecycle.{arena}
use cpp_alls.AsyncConnection.{Connection, Handler}
use cpp_alls.Network.{success}
use cpp_alls.Network.Udp.{Udp, Host, peek, receive, wrong_size, complete, received}
use cpp_alls.Network.Udp.Reachable.{Reachable}
use cpp_alls.Network.Udp.Datagrams.{Reachable-read}
use cpp_alls.Network.Udp.Service.{received-wrong}

-- A message whose first four bytes are those of a number.
abbrev pub message : ℕ → List ℕ → List ℕ
message size more = little_bytes 4 size ++ more

misplaced-message :
    (size : ℕ) (more : List ℕ)
    → misplaced (message size more) ≡ little_bytes 4 size ++ (header (4 + length more) ++ more)
misplaced-message size more =
    let four = length-little_bytes 4 size in
    let front =
      ap (λ n. take n (message size more)) (sym four) ∙ take-append (little_bytes 4 size) more in
    let back =
      ap (λ n. drop n (message size more)) (sym four) ∙ drop-append (little_bytes 4 size) more in
    let whole : length (message size more) ≡ 4 + length more =
      omega (arith, four, length-append (little_bytes 4 size) more) in
    λ i. front i ++ (header (whole i) ++ back i)

-- Over a stream, a udp_connection sends a message of at least four bytes in a datagram that the
-- server for datagrams does not process, if the first four bytes of the message are not the size of
-- the datagram: where a connection's read of the server is under way and gets the datagram, the
-- handler returns, the logger gets the wrong size and nothing else happens but that the next wait
-- for a datagram begins. The datagram is shorter than 2^32 bytes; the server's state is reached
-- without a reload, and without a start while an operation is under way, and its socket is there; a
-- handler has fewer than 1020 bytes.
pub Reachable-misplaced :
    (io : Socket) (stream : IsStream io) (scalars : Scalar.Host) (r : StackRequest) (t : io.State)
    (host : Host) {s : Udp}
    → Reachable host s
    → host.handler_size < 1020
    → (size : ℕ) (more : List ℕ) → size < 2 ^ 32
    → length more + 8 < 2 ^ 32
    → size ≢ length more + 8
    → (l : ℕ) (c : Connection) (h : Handler) (q : Option ℕ) (bytes : List ℕ) → s.socket ≡ some l
    → bytes ≡ misplaced (message size more)
    → s.pending ≡ receive c h q (length bytes) ∷ []
    → (d : SyncConnection.Connection io.State) × (u : Udp) × (j : ℕ) × (m : Pointer) × (write io
          scalars
          (holding io scalars r (message size more) t (message size more))
        ≡ (ok tt, d))
      × (stream.sent d.socket ≡ stream.sent t ++ bytes)
      × (complete host (receive c h q (length bytes)) success bytes (record s { pending = [] })
          ≡ (ok tt, u))
      × (u.events ≡ s.events ++ (wrong_size s.log (length more + 8) size ∷ []))
      × (u.pending ≡ peek j m ∷ [])
Reachable-misplaced io stream scalars r t host {s} reached small size more fits long differ l c h q
      bytes el eb ep =
    let four = length-little_bytes 4 size in
    let total : length (message size more) ≡ 4 + length more =
      omega (arith, four, length-append (little_bytes 4 size) more) in
    let after : List ℕ = header (4 + length more) ++ more in
    let length-after : length after ≡ 4 + length more = omega (
      arith,
      length-append (header (4 + length more)) more,
      length-little_bytes 4 ((4 + length more) + 4),
    ) in
    let arrived : bytes ≡ little_bytes 4 size ++ after = eb ∙ misplaced-message size more in
    let n : length bytes ≡ length more + 8 =
      omega
        (arith, ap length arrived, length-append (little_bytes 4 size) after, four, length-after) in
    let (d, wrote, sent, _) =
      write-misplaced io scalars r (message size more) t stream (omega (arith, total))
        (omega (arith, total, long)) in
    let (ds, j, m, read) = Reachable-read host small reached l c h q bytes el ep in
    let u : Udp = record s { allocator = arena ds; pending = peek j m ∷ [] } in
    (
      d,
      record u { events = s.events ++ (wrong_size s.log (length more + 8) size ∷ []) },
      j,
      m,
      wrote,
      sent ∙ ap (λ l. stream.sent t ++ l) (sym eb),
      read
          ∙ ap (λ bs. received host q (length bytes) (at [] bs) success u) arrived
          ∙ ap (λ k. received host q k (at [] (little_bytes 4 size ++ after)) success u) n
          ∙ received-wrong host q (length more + 8) size after u fits
              (omega (arith, length-after, long)) (λ e. differ (sym e)),
      refl,
      refl,
    )
