-- ===== src/Slab/FirstFit.antt =====
-- The searches of slab_allocator.hpp, with the blocks that `allocate_multiple` leaps over, against
-- the plain first-fit search.
use cpp_alls.Prelude.{
  ℕ, suc, ◌+◌, ◌-◌, ◌<◌, ◌≡◌, refl, ◌∙◌, ◌⊎◌, inl, inr, Option, none, some, List, [], ◌∷◌, arith,
  length, Outcome, ok,
}
use cpp_alls.Slab.{
  Slab, Pointer, storage, global, blocks_required, fill_from, allocate_single, allocate_multiple,
  multiple_from, single_from, free_run, allocate,
}
use cpp_alls.Slab.Arena.{first_fit}

-- `in_use_` once `k` blocks from `i` on are handed out.
abbrev pub mark : ℕ → ℕ → List ℕ → List ℕ
mark i k l = fill_from (i + 1) (k - 1) 255 (fill_from i 1 k l)

abbrev pub place : ℕ → ℕ → List ℕ → Option ℕ → Outcome Pointer × Slab
place address k l none = (ok (global address), record { in_use = l })
place address k l (some i) = (ok (storage i), record { in_use = mark i k l })

module _ (operator_new : ℕ → ℕ) (size a b c d : ℕ) where
  abbrev four : List ℕ
  four = a ∷ b ∷ c ∷ d ∷ []

  single-first_fit :
      allocate_single operator_new size (record { in_use = four })
      ≡ place (operator_new size) 1 four (first_fit 1 four)
  unfolding allocate_single single_from
  single-first_fit = ground arith

  two-first_fit :
      allocate_multiple operator_new 2 size (record { in_use = four })
      ≡ place (operator_new size) 2 four (first_fit 2 four)
  unfolding allocate_multiple multiple_from free_run
  two-first_fit = ground arith

  three-first_fit :
      allocate_multiple operator_new 3 size (record { in_use = four })
      ≡ place (operator_new size) 3 four (first_fit 3 four)
  unfolding allocate_multiple multiple_from free_run
  three-first_fit = ground arith

  four-first_fit :
      allocate_multiple operator_new 4 size (record { in_use = four })
      ≡ place (operator_new size) 4 four (first_fit 4 four)
  unfolding allocate_multiple multiple_from free_run
  four-first_fit = ground arith

blocks_cases :
    (size : ℕ)
    → size < 1020
    → (blocks_required size ≡ 1)
      ⊎ ((blocks_required size ≡ 2) ⊎ ((blocks_required size ≡ 3) ⊎ (blocks_required size ≡ 4)))
unfolding blocks_required
blocks_cases size h = omega arith

module _ (operator_new : ℕ → ℕ) (size : ℕ) where
  allocate_one :
      (s : Slab)
      → blocks_required size ≡ 1
      → allocate operator_new size s ≡ allocate_single operator_new size s
  unfolding allocate
  allocate_one s e = rw (allocate, e) refl

  allocate_more :
      (s : Slab) (k : ℕ)
      → blocks_required size ≡ suc (suc k)
      → allocate operator_new size s ≡ allocate_multiple operator_new (suc (suc k)) size s
  unfolding allocate
  allocate_more s k e = ground (arith, e)

  fit_four :
      (l : List ℕ)
      → size < 1020
      → length l ≡ 4
      → allocate operator_new size (record { in_use = l })
        ≡ place (operator_new size) (blocks_required size) l (first_fit (blocks_required size) l)
  fit_four (a ∷ b ∷ c ∷ d ∷ []) h e = elim (blocks_cases size h) [
    | inl one ↦ allocate_one _ one ∙ rw one (single-first_fit operator_new size a b c d)
    | inr (inl two) ↦ allocate_more _ 0 two ∙ rw two (two-first_fit operator_new size a b c d)
    | inr (inr (inl three)) ↦
        allocate_more _ 1 three ∙ rw three (three-first_fit operator_new size a b c d)
    | inr (inr (inr four_)) ↦
        allocate_more _ 2 four_ ∙ rw four_ (four-first_fit operator_new size a b c d)
  ]
  fit_four (a ∷ b ∷ c ∷ d ∷ x ∷ l) h e = absurd (omega arith)
  fit_four [] h e = absurd (omega arith)
  fit_four (a ∷ []) h e = absurd (omega arith)
  fit_four (a ∷ b ∷ []) h e = absurd (omega arith)
  fit_four (a ∷ b ∷ c ∷ []) h e = absurd (omega arith)

  -- On a request of fewer than 1020 bytes `allocate` takes the lowest free stretch that is long
  -- enough, marks its blocks and nothing else, and goes to `::operator new`, with no change to
  -- `in_use_`, only if there is no such stretch.
  pub allocate-first_fit :
      (s : Slab)
      → size < 1020
      → length s.in_use ≡ 4
      → allocate operator_new size s
        ≡ place
            (operator_new size)
            (blocks_required size)
            s.in_use
            (first_fit (blocks_required size) s.in_use)
  allocate-first_fit s h e = fit_four s.in_use h e
