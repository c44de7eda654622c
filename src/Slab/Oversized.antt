-- ===== src/Slab/Oversized.antt =====
-- slab_allocator.hpp: how many blocks a request takes, and what becomes of one that needs more
-- blocks than there are.
use cpp_alls.Prelude.{
  ℕ, zero, suc, ◌+◌, ◌-◌, ◌*◌, ◌^◌, ◌≤◌, ◌<◌, ◌≡◌, refl, ◌⊎◌, inl, inr, none, some, List, [], ◌∷◌,
  arith, length, get_elem?, ok, undefined, ◌∙◌, ◌/◌, Option-cases,
}
use cpp_alls.Slab.{
  Slab, last_start, blocks_required, allocate, free_run, multiple_from, allocate_multiple,
}

-- The blocks that a request gets hold it, and they are at most one more than it needs.
pub blocks_required-fits :
    (size : ℕ) → (size ≤ 256 * blocks_required size) × (255 * (blocks_required size - 1) ≤ size)
unfolding blocks_required
blocks_required-fits size = omega arith

get_elem?_in : (l : List ℕ) (i : ℕ) (u : ℕ) → get_elem? l i ≡ some u → i < length l
get_elem?_in [] i u h = cc
get_elem?_in (x ∷ l) zero u h = omega arith
get_elem?_in (x ∷ l) (suc i) u h = omega (arith, get_elem?_in l i u h)

get_elem?_out : (l : List ℕ) (i : ℕ) → length l ≤ i → get_elem? l i ≡ none
get_elem?_out [] i h = refl
get_elem?_out (x ∷ l) zero h = absurd (omega arith)
get_elem?_out (x ∷ l) (suc i) h = get_elem?_out l i (omega arith)

module _ (s : Slab) where
  free_run_out :
      (rounds i n : ℕ)
      → get_elem? s.in_use (i + n) ≡ none
      → free_run (suc rounds) i n s ≡ (undefined, s)
  unfolding free_run
  free_run_out rounds i n e = ground (arith, e)

  free_run_free :
      (rounds i n : ℕ)
      → get_elem? s.in_use (i + n) ≡ some 0
      → free_run (suc rounds) i n s ≡ free_run rounds i (n + 1) s
  unfolding free_run
  free_run_free rounds i n e = ground (arith, e)

  free_run_busy :
      (rounds i n u : ℕ)
      → get_elem? s.in_use (i + n) ≡ some (suc u)
      → free_run (suc rounds) i n s ≡ (ok n, s)
  unfolding free_run
  free_run_busy rounds i n u e = ground (arith, e)

  -- A scan for more blocks than are left reads past the array, or meets a block in use before.
  free_run_cases :
      (rounds i n : ℕ)
      → i + n ≤ length s.in_use
      → length s.in_use < i + n + rounds
      → (free_run rounds i n s ≡ (undefined, s))
        ⊎ ((m : ℕ) × (free_run rounds i n s ≡ (ok m, s))
            × (m < n + rounds)
            × (i + m < length s.in_use))
  free_run_cases zero i n h k = absurd (omega arith)
  free_run_cases (suc rounds) i n h k = elim (Option-cases (get_elem? s.in_use (i + n))) [
    | inl out ↦ inl (free_run_out rounds i n out)
    | inr (zero, here) ↦
        rw (free_run_free rounds i n here)
          (ground (arith, free_run_cases rounds i (n + 1), get_elem?_in s.in_use (i + n) 0 here))
    | inr (suc u, here) ↦ inr (
      n,
      free_run_busy rounds i n u here,
      omega arith,
      get_elem?_in s.in_use (i + n) (suc u) here,
    )
  ]

  module _ (operator_new : ℕ → ℕ) (blocks size : ℕ) where
    multiple_out :
        (fuel i : ℕ)
        → i ≤ last_start blocks
        → get_elem? s.in_use i ≡ none
        → multiple_from operator_new (suc fuel) i blocks size s ≡ (undefined, s)
    unfolding multiple_from
    multiple_out fuel i h e = ground (arith, e)

    multiple_busy :
        (fuel i u : ℕ)
        → i ≤ last_start blocks
        → get_elem? s.in_use i ≡ some (suc u)
        → multiple_from operator_new (suc fuel) i blocks size s
          ≡ multiple_from operator_new fuel (i + 1) blocks size s
    unfolding multiple_from
    multiple_busy fuel i u h e = ground (arith, e)

    multiple_scan_out :
        (fuel i : ℕ)
        → i ≤ last_start blocks
        → get_elem? s.in_use i ≡ some 0
        → free_run (blocks - 1) i 1 s ≡ (undefined, s)
        → multiple_from operator_new (suc fuel) i blocks size s ≡ (undefined, s)
    unfolding multiple_from
    multiple_scan_out fuel i h e f = ground (arith, e, f)

    multiple_short :
        (fuel i m : ℕ)
        → i ≤ last_start blocks
        → get_elem? s.in_use i ≡ some 0
        → free_run (blocks - 1) i 1 s ≡ (ok m, s)
        → m < blocks
        → multiple_from operator_new (suc fuel) i blocks size s
          ≡ multiple_from operator_new fuel (i + m + 1) blocks size s
    unfolding multiple_from
    multiple_short fuel i m h e f k = ground (arith, e, f)

    multiple_oversized :
        (fuel i : ℕ)
        → i ≤ length s.in_use
        → length s.in_use < i + fuel
        → length s.in_use < blocks
        → length s.in_use ≤ last_start blocks
        → multiple_from operator_new fuel i blocks size s ≡ (undefined, s)
    multiple_oversized zero i h f b t = absurd (omega arith)
    multiple_oversized (suc fuel) i h f b t = elim (Option-cases (get_elem? s.in_use i)) [
      | inl out ↦ multiple_out fuel i (omega arith) out
      | inr (suc u, here) ↦
          multiple_busy fuel i u (omega arith) here
          ∙ multiple_oversized fuel (i + 1) (omega (arith, get_elem?_in s.in_use i (suc u) here))
              (omega arith) b t
      | inr (zero, here) ↦
          elim (free_run_cases (blocks - 1) i 1 (omega (arith, get_elem?_in s.in_use i 0 here))
            (omega arith)) [
              | inl past ↦ multiple_scan_out fuel i (omega arith) here past
              | inr (m, run, short, inside) ↦
                  multiple_short fuel i m (omega arith) here run (omega arith)
                  ∙ multiple_oversized fuel (i + m + 1) (omega arith) (omega arith) b t
            ]
    ]

-- Whatever is in use, a request of 1020 bytes or more makes the search read past the end of
-- `in_use_`: the loop's bound, `storages_count_ - blocks_required`, has wrapped round.
pub allocate_oversized :
    (operator_new : ℕ → ℕ) (size : ℕ) (s : Slab)
    → length s.in_use ≡ 4
    → 1020 ≤ size
    → size < 2 ^ 64
    → allocate operator_new size s ≡ (undefined, s)
unfolding allocate allocate_multiple blocks_required
allocate_oversized operator_new size s four large word =
    ground (arith, multiple_oversized s operator_new (size / 255 + 1) size 5 0)
