-- ===== src/Tests/Connections.antt =====
-- Connections over a socket that moves one byte in each call, and over one whose reads fail.
use cpp_alls.Prelude.{
  ℕ, ◌≡◌, refl, List, [], ◌∷◌, ◌++◌, take, drop, ok, throws, undefined, system_error, arith,
}
use cpp_alls.Stream.Scalar.{little_endian}
use cpp_alls.Stream.Request.{StackRequest}
use cpp_alls.Slab.Arena.{Cell, free, used}
use cpp_alls.Slab.Lifecycle.{arena}
use cpp_alls.AsyncConnection.{Category, Code, call}
use cpp_alls.AsyncConnection
use cpp_alls.SyncConnection.Transport.{Socket, IsStream}
use cpp_alls.SyncConnection.{Connection, write_without_size}
use cpp_alls.SyncConnection.Buffered.{Flushed, write_without_size-Flushed}
use cpp_alls.SyncConnection.Raw.{extract_data}
use cpp_alls.SyncConnection.Raw.Transfer.{Extracted, extract_data-take}
use cpp_alls.SyncConnection.Raw.Failure.{quiet, extract_data_after_failure}
use cpp_alls.SyncConnection.Framed.{write}
use cpp_alls.SyncConnection.Framed.Layout.{holding, misplaced, write-misplaced, write_short}

record Wire : Type 0 where
  sent : List ℕ
  incoming : List ℕ

abbrev slow : Socket
slow = record {
  State = Wire;
  send = λ bs t. (ok 1, record t { sent = t.sent ++ take 1 bs });
  receive = λ size t. (ok (take 1 t.incoming), record t { incoming = drop 1 t.incoming });
  available = λ t. (ok 1, t);
  shutdown = λ t. t;
  close = λ t. t;
}

abbrev slow_stream : IsStream slow
slow_stream = record {
  sent = λ t. t.sent;
  incoming = λ t. t.incoming;
  send_lem = λ bs t h. (1, _, refl, omega arith, omega arith, refl, refl);
  receive_lem = λ size t h k. (1, _, refl, omega arith, omega arith, omega arith, refl, refl);
}

abbrev broken : Socket
broken = record slow { receive = λ size t. (throws system_error, t) }

abbrev wire : Wire
wire = record { sent = 1 ∷ []; incoming = 7 ∷ 8 ∷ 9 ∷ [] }

abbrev empty : StackRequest
empty = record { bytes = []; data_extracted = 0 }

abbrev link : Connection Wire
link = record { request = empty; response = record { bytes = 2 ∷ 3 ∷ [] }; socket = wire }

write_without_size-Flushed_example :
    (d : Connection Wire) × (write_without_size slow link ≡ (ok tt, d))
    × Flushed slow slow_stream link d
write_without_size-Flushed_example = write_without_size-Flushed slow slow_stream link (omega arith)

extract_data-take_example :
    (d : Connection Wire) × (extract_data slow 2 link ≡ (ok (7 ∷ 8 ∷ []), d))
    × Extracted slow slow_stream 2 link d
extract_data-take_example =
    extract_data-take slow slow_stream 2 link refl (omega arith) (omega arith) (omega arith)
      (omega arith)

extract_data_after_failure_example :
    let (failure, c) = extract_data broken 2 (quiet broken empty wire) in
    let (again, d) = extract_data broken 2 c in
    (failure ≡ throws system_error) × (again ≡ ok (0 ∷ 0 ∷ [])) × (d.socket ≡ c.socket)
extract_data_after_failure_example =
    extract_data_after_failure broken 1 empty wire wire system_error refl (omega arith) refl

abbrev five : List ℕ
five = 10 ∷ 20 ∷ 30 ∷ 40 ∷ 50 ∷ []

write-misplaced_example :
    (d : Connection Wire) × (write slow little_endian
        (holding slow little_endian empty five wire five)
      ≡ (ok tt, d))
    × (d.socket.sent ≡ (1 ∷ []) ++ misplaced five)
    × (d.response.bytes ≡ [])
write-misplaced_example =
    write-misplaced slow little_endian empty five wire slow_stream (omega arith) (omega arith)

write_short_example :
    (write slow little_endian (holding slow little_endian empty (5 ∷ []) wire (5 ∷ []))).0
    ≡ undefined
write_short_example = write_short slow little_endian empty (5 ∷ []) wire (omega arith) (omega arith)

abbrev heap : ℕ → ℕ
heap size = 4096

abbrev cells : List Cell
cells = used 1 ∷ free ∷ free ∷ []

abbrev async_link : AsyncConnection.Connection
async_link = record {
  request = record { bytes = 5 ∷ []; data_extracted = 1 };
  response = record { bytes = 2 ∷ 3 ∷ [] };
  allocator = arena cells;
  calls = [];
}

abbrev broken_pipe : Code Category
broken_pipe = record { value = 32; category = Category.system }
