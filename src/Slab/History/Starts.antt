-- ===== src/Slab/History/Starts.antt =====
-- How many allocations of a list of cells start at a block, and how many pointers point to it.
use cpp_alls.Prelude.{
  ℕ, zero, suc, ◌+◌, ◌≤◌, ◌<◌, ◌≡◌, refl, ap, ◌∙◌, List, [], ◌∷◌, ◌++◌, replicate, length,
  length-append, length-replicate, Bool, true, false, ◌==◌, arith,
}
use cpp_alls.Slab.{Pointer, storage, global}
use cpp_alls.Slab.Arena.{Cell, free, used, render}

abbrev pub one_if : Bool → ℕ
one_if true = 1
one_if false = 0

-- The first cell starts at block `k`.
abbrev pub starts : ℕ → ℕ → List Cell → ℕ
starts i k [] = 0
starts i k (free ∷ cs) = starts i (k + 1) cs
starts i k (used n ∷ cs) = one_if (k == i) + starts i (k + suc n) cs

abbrev pub points_to : ℕ → Pointer → ℕ
points_to i (storage j) = one_if (j == i)
points_to i (global a) = 0

abbrev pub count : ℕ → List Pointer → ℕ
count i [] = 0
count i (p ∷ live) = points_to i p + count i live

pub count-append : (i : ℕ) (xs ys : List Pointer) → count i (xs ++ ys) ≡ count i xs + count i ys
count-append i [] ys = omega arith
count-append i (x ∷ xs) ys = omega (arith, count-append i xs ys)

pub starts-append :
    (i k : ℕ) (xs ys : List Cell)
    → starts i k (xs ++ ys) ≡ starts i k xs + starts i (k + length (render xs)) ys
starts-append i k [] ys =
    let same : k ≡ k + length (render []) = omega arith in
    ap (λ m. starts i m ys) same ∙ omega arith
starts-append i k (free ∷ xs) ys =
    starts-append i (k + 1) xs ys ∙ ap (λ m. starts i (k + 1) xs + starts i m ys) (omega arith)
starts-append i k (used n ∷ xs) ys =
    let place : k + suc n + length (render xs) ≡ k + length (render (used n ∷ xs)) =
      omega (arith, length-append (replicate n 255) (render xs), length-replicate {A = ℕ} n 255) in
    ap (λ m. one_if (k == i) + m) (starts-append i (k + suc n) xs ys)
    ∙ ap (λ m. one_if (k == i) + (starts i (k + suc n) xs + starts i m ys)) place
    ∙ omega arith

pub starts-frees : (i k n : ℕ) → starts i k (replicate n free) ≡ 0
starts-frees i k zero = refl
starts-frees i k (suc n) = starts-frees i (k + 1) n

-- Nothing that starts at `k` or behind it starts before.
starts_before : (i k : ℕ) (cs : List Cell) → i < k → starts i k cs ≡ 0
starts_before i k [] h = refl
starts_before i k (free ∷ cs) h = starts_before i (k + 1) cs (omega arith)
starts_before i k (used n ∷ cs) h = ground (arith, h, starts_before i (k + suc n) cs (omega arith))

pub starts-at_most_one : (i k : ℕ) (cs : List Cell) → starts i k cs ≤ 1
starts-at_most_one i k [] = omega arith
starts-at_most_one i k (free ∷ cs) = starts-at_most_one i (k + 1) cs
starts-at_most_one i k (used n ∷ cs) = split (k == i) refl (starts-at_most_one i (k + suc n) cs)
  where
    split :
        (b : Bool)
        → (k == i) ≡ b
        → starts i (k + suc n) cs ≤ 1
        → one_if (k == i) + starts i (k + suc n) cs ≤ 1
    split true e rest = ground (arith, e, starts_before i (k + suc n) cs (ground (arith, e)))
    split false e rest = ground (arith, e, rest)

-- An allocation that starts at a block is there.
pub starts-split :
    (i k : ℕ) (cs : List Cell)
    → 0 < starts i k cs
    → (front : List Cell) × (n : ℕ) × (back : List Cell) × (cs ≡ front ++ (used n ∷ back))
      × (i ≡ k + length (render front))
starts-split i k [] h = absurd (omega (arith, h))
starts-split i k (free ∷ cs) h =
    let (front, n, back, e, at_) = starts-split i (k + 1) cs h in
    (free ∷ front, n, back, ap (λ l. free ∷ l) e, omega (arith, at_))
starts-split i k (used m ∷ cs) h =
    split (k == i) refl (λ later. starts-split i (k + suc m) cs later)
  where
    split :
        (b : Bool)
        → (k == i) ≡ b
        → (0 < starts i (k + suc m) cs
            → (front : List Cell) × (n : ℕ) × (back : List Cell) × (cs ≡ front ++ (used n ∷ back))
              × (i ≡ k + suc m + length (render front)))
        → (front : List Cell) × (n : ℕ) × (back : List Cell) × (used m ∷ cs
            ≡ front ++ (used n ∷ back))
          × (i ≡ k + length (render front))
    split true e rest = ([], m, cs, refl, ground (arith, e))
    split false e rest =
        let (front, n, back, e', at_) = rest (ground (arith, e, h)) in
        (
          used m ∷ front,
          n,
          back,
          ap (λ l. used m ∷ l) e',
          omega (
            arith,
            at_,
            length-append (replicate m 255) (render front),
            length-replicate {A = ℕ} m 255,
          ),
        )

-- Where nothing starts, all is free.
pub starts-none :
    (cs : List Cell) (k : ℕ)
    → ((i : ℕ) → starts i k cs ≡ 0)
    → cs ≡ replicate (length (render cs)) free
starts-none [] k h = refl
starts-none (free ∷ cs) k h = ap (λ l. free ∷ l) (starts-none cs (k + 1) h)
starts-none (used n ∷ cs) k h = absurd (ground (arith, h k))
