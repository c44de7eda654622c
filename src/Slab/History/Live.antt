-- ===== src/Slab/History/Live.antt =====
-- The pointers that are out point to the allocations that a slab holds, one to each.
use cpp_alls.Prelude.{
  ◌⊎◌, ℕ, suc, ◌+◌, ◌-◌, ◌/◌, ◌≤◌, ◌<◌, ◌≡◌, refl, ap, sym, ◌∙◌, List, [], ◌∷◌, ◌++◌, Option, some,
  none, replicate, length, ◌==◌, arith, Outcome, ok, Option-cases, inl, inr,
}
use mathlib.Core.Path.{subst}
use cpp_alls.Slab.{Slab, Pointer, storage, global, init, allocate, deallocate, blocks_required}
use cpp_alls.Slab.Arena.{Cell, free, used, render, reserve}
use cpp_alls.Slab.Refine.{reserve_split}
use cpp_alls.Slab.Lifecycle.{arena, reserved, allocate-reserve, deallocate-release}
use cpp_alls.Slab.Given.{length-render-frees, same_length}
use cpp_alls.Slab.History.{Reachable, begin, allocated, freed}
use cpp_alls.Slab.History.Starts.{
  one_if, starts, count, count-append, starts-append, starts-frees, starts-at_most_one,
  starts-split, starts-none,
}

pub record Inv (s : Slab) (live : List Pointer) : Type 0 where
  pub cells : List Cell
  pub whole : s ≡ arena cells
  pub four : length (render cells) ≡ 4
  pub held : (i : ℕ) → count i live ≡ starts i 0 cells

starts-append_first :
    (i : ℕ) (xs ys : List Cell)
    → starts i 0 (xs ++ ys) ≡ starts i 0 xs + starts i (length (render xs)) ys
starts-append_first i xs ys =
    let place : 0 + length (render xs) ≡ length (render xs) = omega arith in
    starts-append i 0 xs ys ∙ ap (λ m. starts i 0 xs + starts i m ys) place

-- An allocation in the place of free blocks starts where they did.
starts-used :
    (i : ℕ) (front back : List Cell) (k : ℕ)
    → starts i 0 (front ++ (used k ∷ back))
      ≡ one_if (length (render front) == i) + starts i 0 (front ++ (replicate (suc k) free ++ back))
starts-used i front back k =
    let n = length (render front) in
    let place : n + length (render (replicate (suc k) free)) ≡ n + suc k =
      omega (arith, length-render-frees (suc k)) in
    let frees =
      starts-append i n (replicate (suc k) free) back
      ∙ ap (λ m. starts i n (replicate (suc k) free) + starts i m back) place in
    omega (
      arith,
      starts-append_first i front (used k ∷ back),
      starts-append_first i front (replicate (suc k) free ++ back),
      frees,
      starts-frees i n (suc k),
    )

-- A pointer that was got, and one given back.
taken-Inv :
    {s : Slab} {live : List Pointer} (front back : List Cell) (k : ℕ)
    → (inv : Inv s live) → inv.cells ≡ front ++ (replicate (suc k) free ++ back)
    → Inv (arena (front ++ (used k ∷ back))) (storage (length (render front)) ∷ live)
taken-Inv front back k inv e = record {
  cells = front ++ (used k ∷ back);
  whole = refl;
  four = same_length front back k ∙ sym (ap (λ l. length (render l)) e) ∙ inv.four;
  held = λ i. omega (arith, starts-used i front back k, inv.held i, ap (starts i 0) e);
}

got :
    {t : Slab} {live : List Pointer} {p q : Pointer} {r : Slab}
    → ◌≡◌ {A = Outcome Pointer × Slab} (ok q, r) (ok p, t)
    → Inv r (q ∷ live)
    → Inv t (p ∷ live)
got {t} {live} {p} {q} {r} e inv =
    let same : q ≡ p = cc (ap {A = Outcome Pointer × Slab} (λ x. x.0) e) in
    subst (λ p. Inv t (p ∷ live)) same
      (subst (λ t. Inv t (q ∷ live)) (ap {A = Outcome Pointer × Slab} (λ x. x.1) e) inv)

module _ (operator_new : ℕ → ℕ) where
  allocated-Inv :
      {s t : Slab} {live : List Pointer} {p : Pointer} (size : ℕ)
      → size < 1020
      → allocate operator_new size s ≡ (ok p, t)
      → Inv s live
      → Inv t (p ∷ live)
  unfolding blocks_required
  allocated-Inv {s} {t} {live} {p} size small e inv =
      let cs = inv.cells in
      let done : reserved (operator_new size) cs (reserve (blocks_required size) cs) ≡ (ok p, t) =
        sym (allocate-reserve operator_new size cs small inv.four)
        ∙ ap (allocate operator_new size) (sym inv.whole)
        ∙ e in
      elim (Option-cases (reserve (blocks_required size) cs)) [
        | inl n ↦ got (sym (ap (reserved (operator_new size) cs) n) ∙ done) (record {
          cells = cs;
          whole = refl;
          four = inv.four;
          held = λ i. omega (arith, inv.held i);
        })
        | inr ((i, ds), n) ↦
            let (front, back, whole, kept, at_) = reserve_split (blocks_required size) cs ds i n in
            let less : blocks_required size - 1 ≡ size / 255 = omega arith in
            let more : blocks_required size ≡ suc (size / 255) = omega arith in
            let ds_eq : ds ≡ front ++ (used (size / 255) ∷ back) =
              kept ∙ ap (λ n. front ++ (used n ∷ back)) less in
            got
              (ap {A = ℕ × List Cell} (λ (x : ℕ × List Cell). (ok (storage x.0), arena x.1))
                  (λ k. (sym at_ k, sym ds_eq k))
                ∙ sym (ap (reserved (operator_new size) cs) n)
                ∙ done)
              (taken-Inv front back (size / 255) inv
                (whole ∙ ap (λ n. front ++ (replicate n free ++ back)) more))
      ]

-- What giving a pointer back that is out does.
freed-Inv :
    {s : Slab} {live : List Pointer} (p : Pointer) (before after : List Pointer)
    → live ≡ before ++ (p ∷ after)
    → Inv s live
    → (f : Option ℕ) × (t : Slab) × (deallocate p s ≡ (ok f, t)) × Inv t (before ++ after)
unfolding deallocate
freed-Inv {s} {live} (global a) before after e inv = (
  some a,
  s,
  refl,
  record {
    cells = inv.cells;
    whole = inv.whole;
    four = inv.four;
    held = λ i. omega (
      arith,
      inv.held i,
      ap (count i) e,
      count-append i before (global a ∷ after),
      count-append i before after,
    );
  },
)
freed-Inv {s} {live} (storage j) before after e inv =
    let at_ : (i : ℕ) → count i live ≡ count i (before ++ after) + one_if (j == i) = λ i. omega (
      arith,
      ap (count i) e,
      count-append i before (storage j ∷ after),
      count-append i before after,
    ) in
    let self : one_if (j == j) ≡ 1 = ground arith in
    let (front, n, back, there, place) =
      starts-split j 0 inv.cells (omega (arith, at_ j, self, inv.held j)) in
    let here : j ≡ length (render front) = omega (arith, place) in
    (
      none,
      arena (front ++ (replicate (suc n) free ++ back)),
      ap (deallocate (storage j)) (inv.whole ∙ ap arena there)
          ∙ ap (λ k. deallocate (storage k) (arena (front ++ (used n ∷ back)))) here
          ∙ deallocate-release front back n,
      record {
        cells = front ++ (replicate (suc n) free ++ back);
        whole = refl;
        four = sym (same_length front back n) ∙ sym (ap (λ l. length (render l)) there) ∙ inv.four;
        held = λ i. omega (
          arith,
          at_ i,
          inv.held i,
          ap (starts i 0) there,
          starts-used i front back n,
          ap (λ k. one_if (k == i)) here,
        );
      },
    )

empty-init : (s : Slab) → Inv s [] → s ≡ init
unfolding init
empty-init s inv =
    inv.whole
    ∙ ap arena (starts-none inv.cells 0 (λ i. sym (inv.held i)))
    ∙ ap (λ n. arena (replicate n free)) inv.four

some_out :
    (s : Slab) (live : List Pointer)
    → Inv s live
    → (s ≡ init) ⊎ ((q : Pointer) × (rest : List Pointer) × (live ≡ q ∷ rest))
some_out s [] inv = inl (empty-init s inv)
some_out s (q ∷ rest) inv = inr (q, rest, refl)

module _ (operator_new : ℕ → ℕ) where
  pub Reachable-Inv : {s : Slab} {live : List Pointer} → Reachable operator_new s live → Inv s live
  unfolding init
  Reachable-Inv begin = record {
    cells = free ∷ free ∷ free ∷ free ∷ [];
    whole = refl;
    four = refl;
    held = λ i. refl;
  }
  Reachable-Inv (allocated size r small e) =
      allocated-Inv operator_new size small e (Reachable-Inv r)
  Reachable-Inv (freed {s} {live} p before after r e) =
      let (f, t, done, inv) = freed-Inv p before after e (Reachable-Inv r) in
      subst (λ x. Inv x.1 (before ++ after)) (sym done) inv

  -- Through any allocations of fewer than 1020 bytes and any releases of pointers that are out, in
  -- any order: no two pointers that are out point to the same block, each of them can be given back,
  -- and when the last one has been, the slab is as its constructor left it.
  pub Reachable-released :
      {s : Slab} {live : List Pointer}
      → Reachable operator_new s live
      → (p : Pointer) (before after : List Pointer) → live ≡ before ++ (p ∷ after)
      → ((i : ℕ) → count i live ≤ 1)
        × (f : Option ℕ) × (t : Slab) × (deallocate p s ≡ (ok f, t))
        × ((t ≡ init) ⊎ ((q : Pointer) × (rest : List Pointer) × (before ++ after ≡ q ∷ rest)))
  Reachable-released {s} {live} r p before after e =
      let inv = Reachable-Inv r in
      let (f, t, done, inv') = freed-Inv p before after e inv in
      (
        (λ i. omega (arith, inv.held i, starts-at_most_one i 0 inv.cells)),
        f,
        t,
        done,
        some_out t (before ++ after) inv',
      )
