-- ===== src/Slab.antt =====
-- include/cppalls/core/slab_allocator.hpp: four blocks of 256 bytes inside a connection, handed out
-- to the completion handlers of its asynchronous calls. What `::operator new` returns is a parameter.
pub mod Arena
pub mod FirstFit
pub mod Refine
pub mod Oversized
pub mod Ref
pub mod Lifecycle
pub mod Given
pub mod History
use cpp_alls.Prelude.{
  ℕ, zero, suc, ◌+◌, ◌-◌, ◌/◌, ◌%◌, ◌^◌, ◌≤◌, ◌<◌, ◌≡◌, Option, none, some, List, [], ◌∷◌, true,
  false, arith, ltb, leb, ◌==◌, get_elem?, length, replicate, M, Outcome, ok, undefined,
  out_of_fuel, pure, ◌>>=◌, ◌>>◌, continue_with,
}

-- `in_use_`. The storage itself is only pointed to.
pub record Slab : Type 0 where
  pub in_use : List ℕ

-- A pointer to `storages_ + i`, or one that `::operator new` returned.
pub data Pointer : Type 0 where
  storage : ℕ → Pointer
  global : ℕ → Pointer

abbrev pub storages_min_size : ℕ
storages_min_size = 256

abbrev pub storages_count : ℕ
storages_count = 4

-- `unsigned char in_use_t`
abbrev pub in_use_max : ℕ
in_use_max = 255

-- The constructor fills `in_use_` with zeros.
unfoldable pub init : Slab
init = record { in_use = replicate storages_count 0 }

unfoldable pub blocks_required : ℕ → ℕ
blocks_required size = size / (storages_min_size - 1) + 1

-- `in_use_[i]`
abbrev pub read_in_use : ℕ → M Slab ℕ
read_in_use i s = elim (get_elem? s.in_use i) [ none ↦ (undefined, s) | some u ↦ (ok u, s) ]

-- The `n` entries from index `i` on become `v`.
abbrev pub fill_from : ℕ → ℕ → ℕ → List ℕ → List ℕ
fill_from i n v [] = []
fill_from zero zero v (x ∷ xs) = x ∷ xs
fill_from zero (suc n) v (x ∷ xs) = v ∷ fill_from zero n v xs
fill_from (suc i) n v (x ∷ xs) = x ∷ fill_from i n v xs

-- `std::fill(in_use_ + i, in_use_ + i + n, v)`
abbrev pub fill : ℕ → ℕ → ℕ → M Slab (Unit {0})
fill i n v s = elim (leb (i + n) (length s.in_use)) [
  | true ↦ (ok tt, record s { in_use = fill_from i n v s.in_use })
  | false ↦ (undefined, s)
]

-- The bound of the outer loop, `storages_count_ - blocks_required`, on `std::size_t`.
abbrev pub last_start : ℕ → ℕ
last_start blocks = (storages_count + 2 ^ 64 - blocks) % 2 ^ 64

-- The inner loop of `allocate_multiple`, from `free_blocks = n`, with its rounds left.
unfoldable pub free_run : ℕ → ℕ → ℕ → M Slab ℕ
free_run zero i n = pure n
free_run (suc rounds) i n = do
  u ← read_in_use (i + n)
  elim (u == 0) [ true ↦ free_run rounds i (n + 1) | false ↦ pure n ]

module _ (operator_new : ℕ → ℕ) where
  -- The loop of `allocate_single` from `i`, with its rounds left.
  unfoldable pub single_from : ℕ → ℕ → ℕ → M Slab Pointer
  single_from zero i size = pure (global (operator_new size))
  single_from (suc rounds) i size = do
    u ← read_in_use i
    elim (u == 0) [
      | true ↦ do fill i 1 1; pure (storage i)
      | false ↦ single_from rounds (i + 1) size
    ]

  unfoldable pub allocate_single : ℕ → M Slab Pointer
  allocate_single size = single_from storages_count 0 size

  -- The outer loop of `allocate_multiple` from `i`. Each round moves `i` up, and a read at
  -- `storages_count` or above is out of bounds, so `storages_count + 1` rounds are enough.
  unfoldable pub multiple_from : ℕ → ℕ → ℕ → ℕ → M Slab Pointer
  multiple_from zero i blocks size s = (out_of_fuel, s)
  multiple_from (suc fuel) i blocks size s = elim (leb i (last_start blocks)) [
    | false ↦ (ok (global (operator_new size)), s)
    | true ↦
        (do
          u ← read_in_use i
          elim (u == 0) [
            | false ↦ multiple_from fuel (i + 1) blocks size
            | true ↦ do
              free_blocks ← free_run (blocks - 1) i 1
              elim (free_blocks == blocks) [
                | false ↦ multiple_from fuel (i + free_blocks + 1) blocks size
                | true ↦ do
                  fill i 1 (blocks % 2 ^ 8)
                  fill (i + 1) (blocks - 1) in_use_max
                  pure (storage i)
              ]
          ])
          s
  ]

  unfoldable pub allocate_multiple : ℕ → ℕ → M Slab Pointer
  allocate_multiple blocks size = multiple_from (storages_count + 1) 0 blocks size

  unfoldable pub allocate : ℕ → M Slab Pointer
  allocate size = elim (blocks_required size == 1) [
    | true ↦ allocate_single size
    | false ↦ allocate_multiple (blocks_required size) size
  ]

-- The address that goes to `::operator delete`, if any.
unfoldable pub deallocate : Pointer → M Slab (Option ℕ)
deallocate (global a) = pure (some a)
deallocate (storage i) = do to_free ← read_in_use i; fill i to_free 0; pure none
