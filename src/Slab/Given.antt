-- ===== src/Slab/Given.antt =====
-- slab_allocator.hpp: an allocation of fewer than 1020 bytes, as the code that asks for it uses it.
use cpp_alls.Prelude.{
  ℕ, zero, suc, ◌-◌, ◌/◌, ◌<◌, ◌≡◌, refl, sym, ap, ◌∙◌, Option, List, ◌∷◌, ◌++◌, arith, length,
  length-append, length-replicate, replicate, Outcome, ok, continue_with, Option-cases, inl, inr,
}
use cpp_alls.Slab.{Slab, Pointer, storage, global, deallocate, allocate, blocks_required}
use cpp_alls.Slab.Arena.{Cell, free, used, render, reserve}
use cpp_alls.Slab.Refine.{reserve_split, render-append}
use cpp_alls.Slab.Lifecycle.{arena, deleted, reserved, allocate-reserve, deallocate-allocate}

pub deleted-ok : (p : Pointer) → (freed : Option ℕ) × (deleted (ok p) ≡ ok freed)
deleted-ok (storage i) = (_, refl)
deleted-ok (global a) = (_, refl)

pub length-render-frees : (k : ℕ) → length (render (replicate k free)) ≡ k
length-render-frees zero = refl
length-render-frees (suc k) = ap suc (length-render-frees k)

pub same_length :
    (front back : List Cell) (k : ℕ)
    → length (render (front ++ (used k ∷ back)))
      ≡ length (render (front ++ (replicate (suc k) free ++ back)))
same_length front back k =
    rw
      (
        render-append front (used k ∷ back),
        render-append front (replicate (suc k) free ++ back),
        render-append (replicate (suc k) free) back,
      )
      (omega (
        arith,
        length-append (render front) (render (used k ∷ back)),
        length-append (replicate k 255) (render back),
        length-replicate {A = ℕ} k 255,
        length-append (render front) (render (replicate (suc k) free) ++ render back),
        length-append (render (replicate (suc k) free)) (render back),
        length-render-frees (suc k),
      ))

module _ (operator_new : ℕ → ℕ) (size : ℕ) (cs : List Cell) (small : size < 1020)
    (four : length (render cs) ≡ 4) where
  -- The slab's cells after an allocation, which can be given back.
  pub allocate-given :
      (p : Pointer) × (ds : List Cell) × (freed : Option ℕ) × (length (render ds) ≡ 4)
      × (allocate operator_new size (arena cs) ≡ (ok p, arena ds))
      × (deallocate p (arena ds) ≡ (ok freed, arena cs))
  unfolding blocks_required
  allocate-given =
      let done = allocate-reserve operator_new size cs small four in
      let back = deallocate-allocate operator_new size cs small four in
      elim (Option-cases (reserve (blocks_required size) cs)) [
        | inl e ↦
            given (global (operator_new size)) cs four
              (done ∙ ap (reserved (operator_new size) cs) e) back
        | inr ((i, ds), e) ↦
            let (front, rest, whole, kept, at_) = reserve_split (blocks_required size) cs ds i e in
            let less : blocks_required size - 1 ≡ size / 255 = omega arith in
            let more : suc (size / 255) ≡ blocks_required size = omega arith in
            given (storage i) ds
              (ap (λ l. length (render l)) (kept ∙ ap (λ n. front ++ (used n ∷ rest)) less)
                ∙ same_length front rest (size / 255)
                ∙ ap (λ n. length (render (front ++ (replicate n free ++ rest)))) more
                ∙ sym (ap (λ l. length (render l)) whole)
                ∙ four)
              (done ∙ ap (reserved (operator_new size) cs) e) back
      ]
    where
      given :
          (p : Pointer) (ds : List Cell)
          → length (render ds) ≡ 4
          → allocate operator_new size (arena cs) ≡ (ok p, arena ds)
          → continue_with (allocate operator_new size (arena cs)) deallocate
            ≡ (deleted (allocate operator_new size (arena cs)).0, arena cs)
          → (p : Pointer) × (ds : List Cell) × (freed : Option ℕ) × (length (render ds) ≡ 4)
            × (allocate operator_new size (arena cs) ≡ (ok p, arena ds))
            × (deallocate p (arena ds) ≡ (ok freed, arena cs))
      given p ds four done back =
          let (freed, d) = deleted-ok p in
          (
            p,
            ds,
            freed,
            four,
            done,
            ap (λ r. continue_with r deallocate) (sym done)
                ∙ back
                ∙ ap {A = Outcome Pointer × Slab} (λ r. (deleted r.0, arena cs)) done
                ∙ ap {A = Outcome (Option ℕ)} {B = Outcome (Option ℕ) × Slab} (λ x. (x, arena cs))
                    d,
          )
