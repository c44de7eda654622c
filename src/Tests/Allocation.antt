-- ===== src/Tests/Allocation.antt =====
-- The slab allocator with an allocation of one block in front, and the thread pool on two cores.
use cpp_alls.Prelude.{
  Option, ℕ, ◌+◌, ◌≤◌, ◌≡◌, refl, some, List, [], ◌∷◌, length, ok, undefined, arith, true, ◌⊎◌, min,
}
use cpp_alls.Slab.{
  Slab, Pointer, storage, init, allocate, allocate_multiple, multiple_from, free_run,
  allocate_single, single_from, deallocate, blocks_required,
}
use cpp_alls.Slab.History
use cpp_alls.Slab.History.Starts.{count}
use cpp_alls.Slab.History.Live.{Reachable-released}
use cpp_alls.Slab.Arena.{Cell, free, used}
use cpp_alls.Slab.FirstFit.{allocate-first_fit}
use cpp_alls.Slab.Oversized.{allocate_oversized}
use cpp_alls.Slab.Lifecycle.{arena, allocate-reserve}
use cpp_alls.IoService.{
  Host, Config, Pool, idle, get_threads_count, reload, adjust, create_threads, threads_count_max,
  number_or_zero,
}
use cpp_alls.IoService.Threads.{
  begin, next, reloads, has, logging, Reachable-Staffed, get_threads_count-bounds,
  reload_back-length,
}

-- Where `::operator new` returns.
abbrev heap : ℕ → ℕ
heap size = 4096 + size

abbrev one_used : Slab
one_used = record { in_use = 1 ∷ 0 ∷ 0 ∷ 0 ∷ [] }

allocate-first_fit_example :
    allocate heap 300 one_used ≡ (ok (storage 1), record { in_use = 1 ∷ 2 ∷ 255 ∷ 0 ∷ [] })
unfolding blocks_required
allocate-first_fit_example = allocate-first_fit heap 300 one_used (omega arith) refl

allocate_oversized_example : allocate heap 2000 one_used ≡ (undefined, one_used)
allocate_oversized_example = allocate_oversized heap 2000 one_used refl (omega arith) (omega arith)

abbrev one_cell : List Cell
one_cell = used 0 ∷ free ∷ free ∷ free ∷ []

allocate-reserve_example :
    allocate heap 600 (arena one_cell) ≡ (ok (storage 1), arena (used 0 ∷ used 2 ∷ []))
unfolding blocks_required
allocate-reserve_example = allocate-reserve heap 600 one_cell (omega arith) refl

-- Two blocks and then one are given out.
abbrev both : Slab
both = record { in_use = 2 ∷ 255 ∷ 1 ∷ 0 ∷ [] }

first_two : allocate heap 300 init ≡ (ok (storage 0), record { in_use = 2 ∷ 255 ∷ 0 ∷ 0 ∷ [] })
unfolding init allocate allocate_multiple multiple_from free_run blocks_required
first_two = refl

then_one : allocate heap 100 (record { in_use = 2 ∷ 255 ∷ 0 ∷ 0 ∷ [] }) ≡ (ok (storage 2), both)
unfolding allocate allocate_single single_from blocks_required
then_one = refl

Reachable-released_example :
    ((i : ℕ) → count i (storage 2 ∷ (storage 0 ∷ [])) ≤ 1)
    × (f : Option ℕ) × (t : Slab) × (deallocate (storage 0) both ≡ (ok f, t))
    × ((t ≡ init) ⊎ ((q : Pointer) × (rest : List Pointer) × (storage 2 ∷ [] ≡ q ∷ rest)))
Reachable-released_example =
    Reachable-released heap
      (History.allocated 100 (History.allocated 300 History.begin (omega arith) first_two)
        (omega arith) then_one)
      (storage 0) (storage 2 ∷ []) [] refl

abbrev two_cores : Host
two_cores = record { hardware_concurrency = 2; create_thread = λ n. ok tt }

abbrev threads_of : ℕ → Config (Unit {0})
threads_of n = logging two_cores (λ n. refl) (some n) tt

abbrev three : Pool (Unit {0})
three = (reload two_cores (threads_of 3) idle).1

Reachable-Staffed_example : has 2 three.threads ≡ true
unfolding reload adjust create_threads get_threads_count
Reachable-Staffed_example =
    Reachable-Staffed two_cores (λ n. refl) (next begin (reloads (threads_of 3) idle)) 2
      (omega arith)

get_threads_count-bounds_example :
    (1 ≤ get_threads_count two_cores (threads_of 70000))
    × (get_threads_count two_cores (threads_of 70000) ≤ threads_count_max)
    × ((number_or_zero (some 70000) ≡ 0)
        ⊎ (get_threads_count two_cores (threads_of 70000)
            ≡ min (number_or_zero (some 70000)) threads_count_max))
get_threads_count-bounds_example = get_threads_count-bounds two_cores (threads_of 70000)

reload_back-length_example :
    length (reload two_cores (threads_of 3) (reload two_cores (threads_of 1) three).1).1.threads ≡ 5
unfolding reload adjust create_threads get_threads_count
reload_back-length_example =
    reload_back-length two_cores (λ n. refl) (some 1) (some 3) tt three refl (omega arith)
