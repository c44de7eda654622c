-- ===== src/Slab/Lifecycle.antt =====
-- slab_allocator.hpp: an allocation from its `allocate` to its `deallocate`.
use cpp_alls.Prelude.{
  ℕ, suc, ◌+◌, ◌/◌, ◌≤◌, ◌<◌, ◌≡◌, refl, sym, ap, ◌∙◌, Option, none, some, List, [], ◌∷◌, ◌++◌,
  arith, length, length-append, length-replicate, replicate, get_elem?, Outcome, ok, continue_with,
  Option-cases, inl, inr,
}
use cpp_alls.Slab.{Slab, Pointer, storage, global, fill_from, deallocate, allocate, blocks_required}
use cpp_alls.Slab.Arena.{Cell, free, used, render, reserve}
use cpp_alls.Slab.FirstFit.{mark, place, allocate-first_fit}
use cpp_alls.Slab.Refine.{
  start, first_fit-render, mark-render, clear-render, reserve_split, render-append,
}

abbrev pub arena : List Cell → Slab
arena cs = record { in_use = render cs }

-- The answer that the cells call for.
abbrev pub reserved : ℕ → List Cell → Option (ℕ × List Cell) → Outcome Pointer × Slab
reserved address cs none = (ok (global address), arena cs)
reserved address cs (some (i, ds)) = (ok (storage i), arena ds)

place-reserve :
    (address k : ℕ) (cs : List Cell)
    → place address (suc k) (render cs) (start (reserve (suc k) cs))
      ≡ reserved address cs (reserve (suc k) cs)
place-reserve address k cs = elim (Option-cases (reserve (suc k) cs)) [
  | inl e ↦ rw e refl
  | inr ((i, ds), e) ↦
      let (front, back, whole, kept, at_) = reserve_split (suc k) cs ds i e in
      rw e (
        ap (λ (l : List ℕ). (ok (storage i), record { in_use = l }))
          (ap (λ l. mark i (suc k) (render l)) whole
            ∙ ap (λ j. mark j (suc k) (render (front ++ (replicate (suc k) free ++ back)))) at_
            ∙ mark-render k front back
            ∙ ap (λ j. render (front ++ (used j ∷ back))) (omega arith)
            ∙ ap render (sym kept)))
]

blocks_pos : (size : ℕ) → (k : ℕ) × (blocks_required size ≡ suc k)
unfolding blocks_required
blocks_pos size = (size / 255, omega arith)

-- On a slab whose `in_use_` renders a list of cells of four blocks, a request of fewer than 1020
-- bytes reserves the first free stretch of `blocks_required` cells, and is answered by
-- `::operator new`, with the cells as they were, exactly when there is none.
pub allocate-reserve :
    (operator_new : ℕ → ℕ) (size : ℕ) (cs : List Cell)
    → size < 1020
    → length (render cs) ≡ 4
    → allocate operator_new size (arena cs)
      ≡ reserved (operator_new size) cs (reserve (blocks_required size) cs)
allocate-reserve operator_new size cs small four =
    let (k, e) = blocks_pos size in
    allocate-first_fit operator_new size (arena cs) small four
    ∙ rw (e, first_fit-render k cs) (place-reserve (operator_new size) k cs)

get_elem?-append : (xs ys : List ℕ) (y : ℕ) → get_elem? (xs ++ y ∷ ys) (length xs) ≡ some y
get_elem?-append [] ys y = refl
get_elem?-append (x ∷ xs) ys y = get_elem?-append xs ys y

deallocate_storage :
    (s : Slab) (i u : ℕ)
    → get_elem? s.in_use i ≡ some u
    → i + u ≤ length s.in_use
    → deallocate (storage i) s ≡ (ok none, record { in_use = fill_from i u 0 s.in_use })
unfolding deallocate
deallocate_storage s i u e h = ground (arith, e)

used_inside :
    (front back : List Cell) (n : ℕ)
    → length (render front) + suc n ≤ length (render (front ++ (used n ∷ back)))
used_inside front back n = rw (render-append front (used n ∷ back)) (
    omega (
      arith,
      length-append (render front) (render (used n ∷ back)),
      length-append (replicate n 255) (render back),
      length-replicate {A = ℕ} n 255,
    ))

-- Given back, an allocation turns into free blocks; its neighbours stay as they are, and nothing
-- goes to `::operator delete`.
pub deallocate-release :
    (front back : List Cell) (n : ℕ)
    → deallocate (storage (length (render front))) (arena (front ++ (used n ∷ back)))
      ≡ (ok none, arena (front ++ (replicate (suc n) free ++ back)))
deallocate-release front back n =
    deallocate_storage _ (length (render front)) (suc n) head (used_inside front back n)
    ∙ ap (λ (l : List ℕ). (ok none, record { in_use = l })) (clear-render n front back)
  where
    head : get_elem? (render (front ++ (used n ∷ back))) (length (render front)) ≡ some (suc n)
    head = rw (render-append front (used n ∷ back)) (get_elem?-append (render front) _ (suc n))

-- What `deallocate` passes to `::operator delete`.
abbrev pub deleted : Outcome Pointer → Outcome (Option ℕ)
deleted (ok (global a)) = ok (some a)
deleted _ = ok none

deallocate-reserved :
    (address k : ℕ) (cs : List Cell)
    → let r = reserved address cs (reserve (suc k) cs) in
      continue_with r deallocate ≡ (deleted r.0, arena cs)
deallocate-reserved address k cs = elim (Option-cases (reserve (suc k) cs)) [
  | inl e ↦ rw e (unfold deallocate in refl)
  | inr ((i, ds), e) ↦
      let (front, back, whole, kept, at_) = reserve_split (suc k) cs ds i e in
      rw e (
        ap (λ j. deallocate (storage j) (arena ds)) at_
        ∙ ap (λ l. deallocate (storage (length (render front))) (arena l)) kept
        ∙ ap (λ j. deallocate (storage (length (render front))) (arena (front ++ (used j ∷ back))))
            (omega arith)
        ∙ deallocate-release front back k
        ∙ ap (λ l. (ok none, arena l)) (sym whole))
]

-- A request of fewer than 1020 bytes, given back at once, leaves the slab as it was; a pointer that
-- came from `::operator new`, and no other, goes to `::operator delete`.
pub deallocate-allocate :
    (operator_new : ℕ → ℕ) (size : ℕ) (cs : List Cell)
    → size < 1020
    → length (render cs) ≡ 4
    → continue_with (allocate operator_new size (arena cs)) deallocate
      ≡ (deleted (allocate operator_new size (arena cs)).0, arena cs)
deallocate-allocate operator_new size cs small four =
    let (k, e) = blocks_pos size in
    rw (allocate-reserve operator_new size cs small four, e)
      (deallocate-reserved (operator_new size) k cs)
