-- ===== src/Tests/Datagrams.antt =====
-- The servers for datagrams and for SSL on concrete states.
use cpp_alls.Prelude.{
  ℕ, List, ◌≤◌, ◌≡◌, ◌⊎◌, refl, some, Option, true, [], ◌∷◌, ◌++◌, length, ok, throws, undefined,
  range_error, arith,
}
use cpp_alls.Stream.Scalar.{little_endian, little_bytes}
use cpp_alls.Stream.Request.Decode.{at}
use cpp_alls.Slab.{
  Pointer, allocate, allocate_multiple, multiple_from, free_run, blocks_required, storage,
  deallocate,
}
use cpp_alls.Slab
use cpp_alls.AsyncConnection.{Connection, Handler, fresh, handler, async_read}
use cpp_alls.Stream.Request.{StackRequest}
use cpp_alls.SyncConnection
use cpp_alls.SyncConnection.Framed.Layout.{misplaced, holding}
use cpp_alls.SyncConnection.Classes.Udp.{write}
use cpp_alls.Exchange.Udp.{message, Reachable-misplaced}
use cpp_alls.Tests.Exchanges.{Line, bytewise, bytewise_stream, silent}
use cpp_alls.Network.{success, aborted}
use cpp_alls.Network.Udp.{
  Udp, Host, peek, receive, processed, wrong_size, create, start, stop, complete, accept, connect,
  on_accept, reload,
}
use cpp_alls.Network.Udp.Reachable.{Reachable, begin, next, begins, runs}
use cpp_alls.Network.Udp.Datagrams.{Reachable-single, Reachable-processed, Reachable-short}
use cpp_alls.Network.Udp.Restarts.{working, Reachable-stop_receiving, Reachable-reload}

abbrev empty : StackRequest
empty = record { bytes = []; data_extracted = 0 }

abbrev host : ℕ → Host
host n = record {
  operator_new = λ n. 4096;
  handler_size = 300;
  scalars = little_endian;
  is_processor = λ p. true;
  available = λ k events. ok n;
  process = λ p r events. ok tt;
}

abbrev waiting : ℕ → Udp
waiting n = (start (host n) (working 1 2 3 true) create).1

waiting-Reachable : (n : ℕ) → Reachable (host n) (waiting n)
waiting-Reachable n = next begin (begins (working 1 2 3 true) create refl)

waiting_one : (n : ℕ) → (waiting n).pending ≡ peek 0 (storage 0) ∷ []
unfolding start accept allocate allocate_multiple multiple_from free_run blocks_required Slab.init
waiting_one n = refl

waiting_socket : (n : ℕ) → (waiting n).socket ≡ some 0
unfolding start accept allocate allocate_multiple multiple_from free_run blocks_required Slab.init
waiting_socket n = refl

Reachable-single_example :
    (length (waiting 6).pending ≤ 1)
    × (((waiting 6).allocator ≡ Slab.init)
        ⊎ ((k : ℕ) × (m : Pointer) × (freed : Option ℕ) × ((waiting 6).pending ≡ peek k m ∷ [])
            × (deallocate m (waiting 6).allocator ≡ (ok freed, Slab.init))))
Reachable-single_example = Reachable-single (host 6) (omega arith) (waiting-Reachable 6)

Reachable-processed_example :
    (u : Udp) × (t : Udp) × (p : ℕ) × (c : Connection) × (h : Handler) × (m : Pointer) × (complete
        (host 6)
        (peek 0 (storage 0))
        success
        []
        (record (waiting 6) { pending = [] })
      ≡ (ok tt, u))
    × (u.pending ≡ receive c h (some p) 6 ∷ [])
    × (complete
          (host 6)
          (receive c h (some p) 6)
          success
          (little_bytes 4 6 ++ (7 ∷ 8 ∷ []))
          (record u { pending = [] })
        ≡ (ok tt, t))
    × Reachable (host 6) t
    × ((waiting 6).processor ≡ some p)
    × (t.events ≡ (waiting 6).events ++ (processed p (at (little_bytes 4 6) (7 ∷ 8 ∷ [])) ∷ []))
    × (t.pending ≡ peek 0 m ∷ [])
Reachable-processed_example =
    Reachable-processed (host 6) (omega arith) (waiting-Reachable 6) 0 0 (storage 0)
      (waiting_socket 6) (waiting_one 6) 6 (7 ∷ 8 ∷ []) (omega arith) (omega arith) (λ events. refl)
      (λ p r events. refl)

abbrev reading : ℕ → Udp
reading n =
    (complete (host n) (peek 0 (storage 0)) success [] (record (waiting n) { pending = [] })).1

reading-Reachable : (n : ℕ) → Reachable (host n) (reading n)
reading-Reachable n =
    next (waiting-Reachable n)
      (runs (waiting n) (peek 0 (storage 0)) [] [] success [] (waiting_one n))

abbrev reader : ℕ → Connection
reader n = (async_read (λ n. 4096) 300 (some 0) n fresh).1

abbrev read_handler : Handler
read_handler = record { memory = storage 0; callback = some 0 }

reading_one : (n : ℕ) → (reading n).pending ≡ receive (reader n) read_handler (some 2) n ∷ []
unfolding complete on_accept connect start accept async_read handler allocate allocate_multiple
    multiple_from free_run blocks_required Slab.init deallocate
reading_one n = refl

reading_socket : (n : ℕ) → (reading n).socket ≡ some 0
unfolding complete on_accept connect start accept async_read handler allocate allocate_multiple
    multiple_from free_run blocks_required Slab.init deallocate
reading_socket n = refl

Reachable-short_example :
    (t : Udp) × (j : ℕ) × (m : Pointer) × (complete
        (host 3)
        (receive (reader 3) read_handler (some 2) 3)
        success
        (1 ∷ 2 ∷ 3 ∷ [])
        (record (reading 3) { pending = [] })
      ≡ (throws range_error, t))
    × (t.events ≡ (reading 3).events)
    × (t.pending ≡ peek j m ∷ [])
Reachable-short_example =
    Reachable-short (host 3) (omega arith) (reading-Reachable 3) 0 (reader 3) read_handler (some 2)
      (1 ∷ 2 ∷ 3 ∷ []) (reading_socket 3) (reading_one 3) (omega arith)

Reachable-stop_receiving_example :
    (t : Udp) × (stop (reading 3) ≡ (ok tt, t))
    × (t.closing ≡ (reading 3).closing ++ (0 ∷ []))
    × (t.pending ≡ receive (reader 3) read_handler (some 2) 3 ∷ [])
    × ((complete
          (host 3)
          (receive (reader 3) read_handler (some 2) 3)
          aborted
          []
          (record t { pending = [] })).0
        ≡ undefined)
Reachable-stop_receiving_example =
    Reachable-stop_receiving (host 3) (omega arith) (reading-Reachable 3) 0 (reader 3) read_handler
      (some 2) 3 (reading_socket 3) (reading_one 3) aborted []

Reachable-reload_example :
    (t : Udp) × (k : ℕ) × (m : Pointer) × (reload (host 6) (working 4 5 6 true) (waiting 6)
      ≡ (ok tt, t))
    × (t.socket ≡ some k)
    × (t.pending ≡ peek 0 (storage 0) ∷ (peek k m ∷ []))
Reachable-reload_example =
    Reachable-reload (host 6) (omega arith) (waiting-Reachable 6) (peek 0 (storage 0))
      (waiting_one 6) 4 5 6 true refl

abbrev datagram : List ℕ
datagram = misplaced (message 5 (1 ∷ 2 ∷ []))

Reachable-misplaced_example :
    (d : SyncConnection.Connection Line) × (u : Udp) × (j : ℕ) × (m : Pointer) × (write bytewise
        little_endian
        (holding bytewise little_endian empty
          (message 5 (1 ∷ 2 ∷ []))
          silent
          (message 5 (1 ∷ 2 ∷ [])))
      ≡ (ok tt, d))
    × (d.socket.sent ≡ silent.sent ++ datagram)
    × (complete
          (host 10)
          (receive (reader 10) read_handler (some 2) 10)
          success
          datagram
          (record (reading 10) { pending = [] })
        ≡ (ok tt, u))
    × (u.events ≡ (reading 10).events ++ (wrong_size (reading 10).log 10 5 ∷ []))
    × (u.pending ≡ peek j m ∷ [])
unfolding little_bytes
Reachable-misplaced_example =
    Reachable-misplaced bytewise bytewise_stream little_endian empty silent (host 10)
      (reading-Reachable 10) (omega arith) 5 (1 ∷ 2 ∷ []) (omega arith) (omega arith) (omega arith)
      0 (reader 10) read_handler (some 2) datagram (reading_socket 10) refl (reading_one 10)
