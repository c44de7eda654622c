-- ===== src/Exchange/Tcp.antt =====
-- A request of a tcp_connection_raw, and the reply of the connection that a server has for it.
use mathlib.Core.Path.{subst}
use cpp_alls.Prelude.{
  ℕ, ◌^◌, ◌<◌, ◌≡◌, refl, sym, ap, ◌∙◌, String, List, [], ◌++◌, map, All, Option, arith, length,
  Outcome, ok, ◌>>◌, continue_with-keeps,
}
use cpp_alls.Stream.Scalar.{Host}
use cpp_alls.Stream.Response.Encode.{response}
use cpp_alls.Stream.Request.{StackRequest, extract_data}
use cpp_alls.Stream.Request
use cpp_alls.Stream.Request.Decode.{at, init-at}
use cpp_alls.Stream.RoundTrip.{
  Item, shape, IsSendable, encode_items, put_items, get_items, put_items-Writes, get_items-Takes,
}
use cpp_alls.SyncConnection.Transport.{Socket, IsStream}
use cpp_alls.SyncConnection.{on_socket, on_response}
use cpp_alls.SyncConnection
use cpp_alls.SyncConnection.Buffered.{write_without_size-Flushed}
use cpp_alls.SyncConnection.Raw
use cpp_alls.SyncConnection.Raw.Receives.{IsIdle, receives}
use cpp_alls.SyncConnection.Classes.{Resolver, create, connect}
use cpp_alls.SyncConnection.Classes.Tcp.{raw_connection, raw_write}
use cpp_alls.Slab.Arena.{Cell, render}
use cpp_alls.Slab.Lifecycle.{arena}
use cpp_alls.AsyncConnection.{Connection}
use cpp_alls.Exchange.Serving.{serve, served}

module _ (io : Socket) (net : Resolver io.State) where
  abbrev pub IsNew : SyncConnection.Connection io.State → Type 0
  IsNew c = (c.request ≡ Request.init) × (c.response.bytes ≡ [])

  raw_connection-IsNew :
      (address port : String) (t : io.State) → IsNew (raw_connection io net address port t).1
  unfolding raw_connection
  raw_connection-IsNew address port t =
      continue_with-keeps IsNew (connect net address port t).0 (create net address port t).1
        (λ made. on_socket net.set_no_delay) (refl, refl) (λ made. (refl, refl))

  raw_connection-idle :
      (stream : IsStream io) (address port : String) (t : io.State)
      (c : SyncConnection.Connection io.State)
      → raw_connection io net address port t ≡ (ok tt, c)
      → IsNew c
  raw_connection-idle stream address port t c e =
      subst IsNew (ap {A = Outcome (Unit {0}) × SyncConnection.Connection io.State} (λ r. r.1) e)
        (raw_connection-IsNew address port t)

module _ (io : Socket) (stream : IsStream io) (net : Resolver io.State) (host : Host)
    (operator_new : ℕ → ℕ) (handler_size : ℕ) where
  open stream use {sent, incoming}

  -- The client's side of a request.
  request-sent :
      (c : SyncConnection.Connection io.State) (xs : List Item)
      → c.response.bytes ≡ []
      → All IsSendable xs
      → length (encode_items xs) < 2 ^ 32
      → (d : SyncConnection.Connection io.State) × ((on_response (put_items host xs)
              >> Raw.write io)
            c
          ≡ (ok tt, d))
        × (sent d.socket ≡ sent c.socket ++ encode_items xs)
        × (d.request ≡ c.request)
        × (d.response.bytes ≡ [])
  unfolding Raw.write
  request-sent c xs empty h fits =
      let wrote : put_items host xs c.response ≡ (ok tt, response (encode_items xs)) =
        ap (λ l. put_items host xs (response l)) empty
        ∙ put_items-Writes host xs h [] (omega (arith, fits)) in
      let full = record c { response = response (encode_items xs) } in
      let (d, e, f) = write_without_size-Flushed io stream full fits in
      (d, rw wrote e, f.bytes, f.request, f.response)

  -- The client's side of a reply.
  reply-received :
      (c d : SyncConnection.Connection io.State) (ys : List Item) (u : io.State) (rest : List ℕ)
      → IsNew io net c
      → d.request ≡ c.request
      → d.response.bytes ≡ []
      → All IsSendable ys
      → length (encode_items ys) < 2 ^ 32
      → incoming u ≡ encode_items ys ++ rest
      → (f : SyncConnection.Connection io.State) × (get_items host
            (Raw.extract_data io)
            (map shape ys)
            (record d { socket = u })
          ≡ (ok ys, f))
        × (incoming f.socket ≡ rest)
  reply-received c d ys u rest (new, _) same empty h fits e =
      let untouched : d.request ≡ at [] [] = same ∙ new ∙ init-at in
      let idle : IsIdle io stream (record d { socket = u }) = record {
        drained =
            ap (λ (r : StackRequest). r.data_extracted) untouched
            ∙ sym (ap (λ (r : StackRequest). length r.bytes) untouched);
        response = omega (arith, ap length empty);
        request = omega (arith, ap (λ (r : StackRequest). length r.bytes) untouched);
      } in
      let (f, ef, took) =
        get_items-Takes host (Raw.extract_data io) (receives io stream) ys h
          (record d { socket = u }) rest idle (omega (arith, fits)) e in
      (f, ef, took.left)

  -- A request and its reply. The client is a tcp_connection_raw that has connected to an address
  -- over a stream. Of the server's connection the allocator renders four blocks of cells, and the
  -- response is empty. The client writes the values xs and sends them: exactly their bytes are added
  -- to what it has sent. The server's connection asks for as many bytes and receives them, and in
  -- its callback reads the values xs, writes the values ys and starts a write of the bytes of ys.
  -- The client, when these bytes are the next of its stream, reads the values ys and leaves what
  -- follows them in the stream. Every value fits its type, a scalar's type is wider than a byte, the
  -- bytes of xs and those of ys are fewer than 2^32, and a handler has fewer than 1020 bytes.
  pub exchange :
      (address port : String) (t : io.State) (c : SyncConnection.Connection io.State)
      → raw_connection io net address port t ≡ (ok tt, c)
      → (xs ys : List Item) → All IsSendable xs
      → All IsSendable ys
      → length (encode_items xs) < 2 ^ 32
      → length (encode_items ys) < 2 ^ 32
      → (s : Connection) (cs : List Cell) (callback : Option ℕ) → s.response.bytes ≡ []
      → s.allocator ≡ arena cs
      → length (render cs) ≡ 4
      → handler_size < 1020
      → (u : io.State) (rest : List ℕ) → incoming u ≡ encode_items ys ++ rest
      → (d f : SyncConnection.Connection io.State) × ((on_response (put_items host xs)
              >> raw_write io)
            c
          ≡ (ok tt, d))
        × (sent d.socket ≡ sent c.socket ++ encode_items xs)
        × ((serve host operator_new handler_size (encode_items xs) (map shape xs) ys callback s).0
            ≡ ok (xs, encode_items ys))
        × (get_items host (Raw.extract_data io) (map shape ys) (record d { socket = u })
            ≡ (ok ys, f))
        × (incoming f.socket ≡ rest)
  exchange address port t c connected xs ys hx hy fx fy s cs callback empty ea four small u rest e =
      let new = raw_connection-idle io net stream address port t c connected in
      let (d, wrote, bytes, same, cleared) = request-sent c xs new.1 hx fx in
      let (f, read, left) = reply-received c d ys u rest new same cleared hy fy e in
      (
        d,
        f,
        wrote,
        bytes,
        served host operator_new handler_size xs ys s cs callback hx hy fx fy small empty ea four,
        read,
        left,
      )
