-- ===== src/Slab/History.antt =====
-- slab_allocator.hpp through any allocations and releases, in any order.
pub mod Starts
pub mod Live
use cpp_alls.Prelude.{ℕ, ◌<◌, ◌≡◌, List, [], ◌∷◌, ◌++◌, Outcome, ok}
use cpp_alls.Slab.{Slab, Pointer, init, allocate, deallocate}

-- A slab with the pointers that it has given out and not got back.
pub data Reachable (operator_new : ℕ → ℕ) : Slab → List Pointer → Type 0 where
  begin : Reachable operator_new init []
  allocated :
      {s t : Slab} {live : List Pointer} {p : Pointer} (size : ℕ)
      → Reachable operator_new s live
      → size < 1020
      → allocate operator_new size s ≡ (ok p, t)
      → Reachable operator_new t (p ∷ live)
  freed :
      {s : Slab} {live : List Pointer} (p : Pointer) (before after : List Pointer)
      → Reachable operator_new s live
      → live ≡ before ++ (p ∷ after)
      → Reachable operator_new (deallocate p s).1 (before ++ after)
