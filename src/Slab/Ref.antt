-- ===== src/Slab/Ref.antt =====
-- include/cppalls/core/slab_allocator_ref.hpp: an allocator of objects that takes their memory from a
-- slab_allocator that it points to.
use cpp_alls.Prelude.{ℕ, ◌*◌, ◌<◌, ◌≡◌, Option, List, length, M, arith, ◌>>=◌}
use cpp_alls.Slab.{Slab, Pointer, allocate, deallocate, blocks_required}
use cpp_alls.Slab.Arena.{Cell, render}
use cpp_alls.Slab.Lifecycle.{arena, deleted, deallocate-allocate}

module _ (operator_new : ℕ → ℕ) where
  -- Memory for so many objects of this many bytes: their number is taken for the number of bytes.
  pub allocate_objects : ℕ → ℕ → M Slab Pointer
  allocate_objects width n = allocate operator_new n

  pub deallocate_objects : Pointer → ℕ → M Slab (Option ℕ)
  deallocate_objects p n = deallocate p

  -- Fewer than 1020 objects can be given back as they were taken, and leave the slab as it was.
  pub deallocate_objects-allocate_objects :
      (width n : ℕ) (cs : List Cell)
      → n < 1020
      → length (render cs) ≡ 4
      → (allocate_objects width n >>= λ p. deallocate_objects p n) (arena cs)
        ≡ (deleted (allocate operator_new n (arena cs)).0, arena cs)
  unfolding allocate_objects deallocate_objects
  deallocate_objects-allocate_objects width n cs small four =
      deallocate-allocate operator_new n cs small four

-- The blocks for so many objects do not hold them, if there are at least 512 of at least two bytes.
pub blocks_required-short : (n : ℕ) → 511 < n → 256 * blocks_required n < 2 * n
unfolding blocks_required
blocks_required-short n many = omega (arith, many)
