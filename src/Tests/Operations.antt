-- ===== src/Tests/Operations.antt =====
-- A read and a write under way on one connection, of which the read ends first.
use cpp_alls.Prelude.{ℕ, ◌≡◌, ◌⊎◌, refl, some, Option, List, [], ◌∷◌, ok, arith}
use cpp_alls.Slab.{storage, allocate, allocate_multiple, multiple_from, free_run, blocks_required}
use cpp_alls.Slab
use cpp_alls.AsyncConnection.{
  Category, Code, Connection, Handler, call, fresh, handler, async_read, async_write,
}
use cpp_alls.AsyncConnection.Interleaved.{Operation, reading, writing, complete, Reachable-ended}
use cpp_alls.AsyncConnection.Interleaved

abbrev heap : ℕ → ℕ
heap size = 4096

abbrev read_handler : Handler
read_handler = record { memory = storage 0; callback = some 1 }

abbrev write_handler : Handler
write_handler = record { memory = storage 2; callback = some 2 }

abbrev reader : Connection
reader = (async_read heap 300 (some 1) 2 fresh).1

abbrev both : Connection
both = (async_write heap 300 (some 2) reader).1

read_begun : async_read heap 300 (some 1) 2 fresh ≡ (ok read_handler, reader)
unfolding async_read handler allocate allocate_multiple multiple_from free_run blocks_required
    Slab.init
read_begun = refl

write_begun : async_write heap 300 (some 2) reader ≡ (ok ([], write_handler), both)
unfolding async_read async_write handler allocate allocate_multiple multiple_from free_run
    blocks_required Slab.init
write_begun = refl

abbrev broken_pipe : Code Category
broken_pipe = record { value = 32; category = Category.system }

Reachable-ended_example :
    (f : Option ℕ) × (d : Connection) × (complete
        (reading (some 1) read_handler)
        broken_pipe
        (7 ∷ [])
        both
      ≡ (ok f, d))
    × (d.calls ≡ (call (some 1) broken_pipe both).calls)
    × ((d.allocator ≡ Slab.init)
        ⊎ ((p : Operation) × (rest : List Operation) × (writing (some 2) write_handler ∷ []
              ≡ p ∷ rest)))
Reachable-ended_example =
    Reachable-ended heap 300 (omega arith)
      (Interleaved.writes (some 2) [] write_handler
        (Interleaved.reads (some 1) 2 read_handler Interleaved.begin read_begun) write_begun)
      (reading (some 1) read_handler) (writing (some 2) write_handler ∷ []) [] refl broken_pipe
      (7 ∷ [])
