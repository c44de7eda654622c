-- ===== src/SyncConnection/Framed/Message.antt =====
-- A framed read of a plain socket that has a whole message, with its size in front, to give.
use cpp_alls.Prelude.{
  ℕ, suc, ◌+◌, ◌-◌, ◌%◌, ◌^◌, ◌<◌, ◌≡◌, refl, ap, ◌∙◌, List, [], ◌++◌, arith, length, take, drop,
  ltb, true, false, Outcome, ok, throws, undefined, out_of_fuel, M, pure, ◌>>=◌, continue_with,
  ◌==◌, drop-length, take-length, length-append, length-replicate,
}
use cpp_alls.Stream.Scalar.{Host, unsigned_int, little_bytes, length-little_bytes}
use cpp_alls.Stream.Request.{StackRequest, get, do_istream, shrink, resize, extract_data}
use cpp_alls.Stream.Request.Decode.{at, get-Reads}
use cpp_alls.SyncConnection.Transport.{Socket, IsStream}
use cpp_alls.SyncConnection.{Connection, extract, on_request}
use cpp_alls.SyncConnection.ReceiveLoop.{read_loop-Received}
use cpp_alls.SyncConnection.Framed.{write, read, data_size}
use cpp_alls.SyncConnection.Framed.Starved.{shrink-drained}
use cpp_alls.SyncConnection.Raw.Transfer.{zeros, resize-shrink}
use cpp_alls.SyncConnection.Raw.Failure.{quiet}

on_request-pure :
    {T A B : Type 0} (m : M StackRequest A) (g : A → B) (c : Connection T)
    → continue_with (on_request m c) (λ a. pure (g a)) ≡ on_request (m >>= λ a. pure (g a)) c
on_request-pure {T} {A} {B} m g c = split (m c.request).0 (m c.request).1
  where
    split :
        (r : Outcome A) (q : StackRequest)
        → continue_with {A = A} {B = B} (r, record c { request = q }) (λ a. pure (g a)) ≡ (
            let p = continue_with {A = A} {B = B} (r, q) (λ a. pure (g a)) in
            (p.0, record c { request = p.1 }))
    split (ok a) q = refl
    split (throws e) q = refl
    split undefined q = refl
    split out_of_fuel q = refl

-- A message of so many bytes in all, of which the first four are its size.
abbrev pub framed : ℕ → List ℕ → List ℕ
framed n body = little_bytes 4 n ++ body

==_self : (n : ℕ) → (n == n) ≡ true
==_self n = ground arith

resized : (n : ℕ) → resize n (record { bytes = []; data_extracted = 0 }) ≡ zeros n
unfolding shrink
resized n = resize-shrink n (record { bytes = []; data_extracted = 0 }) refl

module _ (io : Socket) (host : Host) where
  abbrev pub buffered : StackRequest → io.State → Connection io.State
  buffered q t = record { request = q; response = record { bytes = [] }; socket = t }

  open host use {object_value, little_to_native}

  size_read :
      (fuel n : ℕ) (body : List ℕ) (t : io.State)
      → n < 2 ^ 32
      → n ≡ 4 + length body
      → get host
          (extract io (read io host false fuel))
          unsigned_int
          (buffered (at [] (framed n body)) t)
        ≡ (ok n, buffered (at (little_bytes 4 n) body) t)
  unfolding get do_istream extract
  size_read fuel n body t small e = rw test (
      on_request-pure (extract_data 4) (λ bs. little_to_native 4 (object_value bs))
        (buffered (at [] (framed n body)) t)
      ∙ ap {A = Outcome ℕ × StackRequest} (λ r. (r.0, buffered r.1 t))
          (get-Reads host unsigned_int n (omega arith) small [] body
            (omega (arith, length-little_bytes 4 n))))
    where
      test : ltb (length (framed n body)) ((4 + 0) % 2 ^ 64) ≡ false
      test = ground (arith, length-append (little_bytes 4 n) body, length-little_bytes 4 n)

  module _ (stream : IsStream io) where
    open stream use {sent, incoming}

    -- A framed read over a stream of a plain socket, on a connection with nothing to send and
    -- nothing left to extract, takes in a whole message that is there, when it is all that is
    -- there and the socket's available says so: it returns, the size is extracted, and the body
    -- is what is left to extract. The message has fewer than 2^32 bytes with its size.
    pub read_message :
        (fuel wanted n : ℕ) (body : List ℕ) (r : StackRequest) (t : io.State)
        → r.data_extracted ≡ length r.bytes
        → incoming t ≡ framed n body
        → n ≡ 4 + length body
        → n < 2 ^ 32
        → io.available t ≡ (ok n, t)
        → (u : io.State) × (read io host false (suc fuel) wanted (quiet io r t)
            ≡ (ok tt, buffered (at (little_bytes 4 n) body) u))
          × (incoming u ≡ [])
          × (sent u ≡ sent t)
    unfolding read write data_size
    read_message fuel wanted n body r t drained there e small ready =
        let len : length (incoming t) ≡ n = omega (
          arith,
          ap length there,
          length-append (little_bytes 4 n) body,
          length-little_bytes 4 n,
        ) in
        let (d, p, q) =
          read_loop-Received io stream n 0 n (buffered (zeros n) t) refl (length-replicate n 0)
            (omega arith) (omega arith) (omega (arith, len)) in
        let all : n - 0 ≡ length (incoming t) = omega (arith, len) in
        let bytes =
          q.bytes ∙ ap (λ k. take k (incoming t)) all ∙ take-length (incoming t) ∙ there in
        let same : d ≡ buffered (at [] (framed n body)) d.socket = λ i. record {
          request = record { bytes = bytes i; data_extracted = q.start i };
          response = q.response i;
          socket = d.socket;
        } in
        let received = p ∙ ap {A = Connection io.State} (λ d. (ok tt, d)) same in
        (
          d.socket,
          rw
              (
                shrink-drained r drained,
                ready,
                resized n,
                received,
                size_read fuel n body d.socket small e,
                ==_self n,
              )
              refl,
          q.left ∙ ap (λ k. drop k (incoming t)) all ∙ drop-length (incoming t),
          q.kept,
        )
