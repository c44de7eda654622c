-- ===== src/Slab/Refine.antt =====
-- slab_allocator.hpp on cells: `allocate` reserves, `deallocate` releases.
use mathlib.Core.List.{append_assoc}
use mathlib.Core.Option
use cpp_alls.Prelude.{
  ℕ, zero, suc, ◌+◌, ◌-◌, ◌≡◌, refl, sym, ap, ◌∙◌, Option, none, some, List, [], ◌∷◌, ◌++◌, arith,
  length, length-append, length-replicate, replicate, drop, true, Bool-cases, Option-cases, inl,
  inr,
}
use cpp_alls.Slab.{fill_from}
use cpp_alls.Slab.Arena.{
  Cell, free, used, render_cell, render, starts_free, first_fit, frees, reserve,
}
use cpp_alls.Slab.FirstFit.{mark}

starts_free-render : (k : ℕ) (cs : List Cell) → starts_free k (render cs) ≡ frees k cs
starts_free-render zero cs = refl
starts_free-render (suc k) [] = refl
starts_free-render (suc k) (free ∷ cs) = starts_free-render k cs
starts_free-render (suc k) (used n ∷ cs) = ground arith

fill_from-append :
    (xs ys : List ℕ) (i n v : ℕ)
    → fill_from (length xs + i) n v (xs ++ ys) ≡ xs ++ fill_from i n v ys
fill_from-append [] ys i n v = ap (λ j. fill_from j n v ys) (omega arith)
fill_from-append (x ∷ xs) ys i n v =
    ap (λ j. fill_from j n v (x ∷ xs ++ ys)) shift ∙ ap (◌∷◌ x) (fill_from-append xs ys i n v)
  where
    shift : suc (length xs) + i ≡ suc (length xs + i)
    shift = omega arith

fill_from_all :
    (xs ys : List ℕ) (v : ℕ) → fill_from 0 (length xs) v (xs ++ ys) ≡ replicate (length xs) v ++ ys
fill_from_all [] [] v = refl
fill_from_all [] (y ∷ ys) v = refl
fill_from_all (x ∷ xs) ys v = ap (◌∷◌ v) (fill_from_all xs ys v)

pub render-append : (front back : List Cell) → render (front ++ back) ≡ render front ++ render back
render-append [] back = refl
render-append (a ∷ front) back =
    ap (◌++◌ (render_cell a)) (render-append front back) ∙ sym (append_assoc (render_cell a) _ _)

render-frees : (k : ℕ) → render (replicate k free) ≡ replicate k 0
render-frees zero = refl
render-frees (suc k) = ap (◌∷◌ 0) (render-frees k)

frees-split : (k : ℕ) (cs : List Cell) → frees k cs ≡ true → cs ≡ replicate k free ++ drop k cs
frees-split zero cs h = refl
frees-split (suc k) [] h = cc
frees-split (suc k) (free ∷ cs) h = ap (◌∷◌ free) (frees-split k cs h)
frees-split (suc k) (used n ∷ cs) h = cc

-- Where `reserve` finds its blocks, and what it makes of them.
pub reserve_split :
    (k : ℕ) (cs cs' : List Cell) (i : ℕ)
    → reserve k cs ≡ some (i, cs')
    → (front : List Cell) × (back : List Cell) × (cs ≡ front ++ (replicate k free ++ back))
      × (cs' ≡ front ++ (used (k - 1) ∷ back))
      × (i ≡ length (render front))
reserve_split k [] cs' i h = cc
reserve_split k (c ∷ cs) cs' i h = elim (Bool-cases (frees k (c ∷ cs))) [
  | inl found ↦ (
    [],
    drop k (c ∷ cs),
    frees-split k (c ∷ cs) found,
    ground (arith, found),
    ground (arith, found),
  )
  | inr missing ↦ elim (Option-cases (reserve k cs)) [
    | inl e ↦ absurd (ground (arith, e, missing))
    | inr ((j, ds), e) ↦
        let (front, back, whole, kept, at_) = reserve_split k cs ds j e in
        (
          c ∷ front,
          back,
          ap (◌∷◌ c) whole,
          ground (arith, e, missing, kept),
          ground (arith, e, missing, at_, length-append (render_cell c) (render front)),
        )
  ]
]

first_fit_busy :
    (k n : ℕ) (l : List ℕ) (o : Option ℕ)
    → first_fit (suc k) l ≡ o
    → first_fit (suc k) (replicate n 255 ++ l) ≡ Option.map (λ j. n + j) o
first_fit_busy k zero l none h = h
first_fit_busy k zero l (some j) h = h ∙ ap some (omega arith)
first_fit_busy k (suc n) l none h = ap (Option.map suc) (first_fit_busy k n l none h)
first_fit_busy k (suc n) l (some j) h =
    ap (Option.map suc) (first_fit_busy k n l (some j) h) ∙ ap some (omega arith)

abbrev pub start : Option (ℕ × List Cell) → Option ℕ
start none = none
start (some (i, cs)) = some i

pub first_fit-render :
    (k : ℕ) (cs : List Cell) → first_fit (suc k) (render cs) ≡ start (reserve (suc k) cs)
first_fit-render k [] = refl
first_fit-render k (free ∷ cs) = elim (Option-cases (reserve (suc k) cs)) [
  | inl e ↦ ground (arith, e, first_fit-render k cs, starts_free-render k cs)
  | inr ((j, ds), e) ↦ ground (arith, e, first_fit-render k cs, starts_free-render k cs)
]
first_fit-render k (used n ∷ cs) = elim (Option-cases (reserve (suc k) cs)) [
  | inl e ↦ ground (arith, e, first_fit_busy k n (render cs) none, first_fit-render k cs)
  | inr ((j, ds), e) ↦ ground (
    arith,
    e,
    first_fit_busy k n (render cs) (some j),
    first_fit-render k cs,
    length-replicate {A = ℕ} n 255,
  )
]

fill_from_at :
    (xs ys : List ℕ) (n v : ℕ) → fill_from (length xs) n v (xs ++ ys) ≡ xs ++ fill_from 0 n v ys
fill_from_at [] ys n v = refl
fill_from_at (x ∷ xs) ys n v = ap (◌∷◌ x) (fill_from_at xs ys n v)

fill_from_none : (l : List ℕ) (v : ℕ) → fill_from 0 0 v l ≡ l
fill_from_none [] v = refl
fill_from_none (x ∷ l) v = refl

-- `n` entries of one value become `n` entries of another.
fill_from-replicate :
    (n u v : ℕ) (ys : List ℕ) → fill_from 0 n v (replicate n u ++ ys) ≡ replicate n v ++ ys
fill_from-replicate zero u v ys = fill_from_none ys v
fill_from-replicate (suc n) u v ys = ap (◌∷◌ v) (fill_from-replicate n u v ys)

mark-append : (k : ℕ) (xs ys : List ℕ) → mark (length xs) k (xs ++ ys) ≡ xs ++ mark 0 k ys
mark-append k xs ys = rw (fill_from_at, fill_from-append) refl

mark-replicate :
    (k : ℕ) (ys : List ℕ)
    → mark 0 (suc k) (0 ∷ (replicate k 0 ++ ys)) ≡ suc k ∷ (replicate k 255 ++ ys)
mark-replicate k ys =
    ap (λ l. suc k ∷ fill_from 0 (suc k - 1) 255 l) (fill_from_none (replicate k 0 ++ ys) (suc k))
    ∙ ap (λ j. suc k ∷ fill_from 0 j 255 (replicate k 0 ++ ys)) (omega arith)
    ∙ ap (◌∷◌ (suc k)) (fill_from-replicate k 0 255 ys)

render-stretch :
    (k : ℕ) (back : List Cell) → render (replicate k free ++ back) ≡ replicate k 0 ++ render back
render-stretch k back =
    render-append (replicate k free) back ∙ ap (λ l. l ++ render back) (render-frees k)

-- A free stretch, marked, is an allocation; an allocation, cleared, is a free stretch.
pub mark-render :
    (k : ℕ) (front back : List Cell)
    → mark (length (render front)) (suc k) (render (front ++ (replicate (suc k) free ++ back)))
      ≡ render (front ++ (used k ∷ back))
mark-render k front back =
    rw
      (
        render-append front (replicate (suc k) free ++ back),
        render-append front (used k ∷ back),
        mark-append (suc k) (render front),
      )
      (ap (◌++◌ (render front))
        (ap (λ l. mark 0 (suc k) (0 ∷ l)) (render-stretch k back) ∙ mark-replicate k (render back)))

pub clear-render :
    (n : ℕ) (front back : List Cell)
    → fill_from (length (render front)) (suc n) 0 (render (front ++ (used n ∷ back)))
      ≡ render (front ++ (replicate (suc n) free ++ back))
clear-render n front back =
    rw
      (
        render-append front (used n ∷ back),
        render-append front (replicate (suc n) free ++ back),
        fill_from_at (render front),
      )
      (ap (◌++◌ (render front))
        (ap (◌∷◌ 0) (fill_from-replicate n 255 0 (render back) ∙ sym (render-stretch n back))))
