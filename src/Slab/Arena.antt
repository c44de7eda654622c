-- ===== src/Slab/Arena.antt =====
-- The storage of a slab_allocator seen as free blocks and allocations, with the first-fit search
-- that `allocate` stands for.
use mathlib.Core.Option
use cpp_alls.Prelude.{
  ℕ, zero, suc, ◌+◌, ◌-◌, Option, none, some, List, [], ◌∷◌, ◌++◌, Bool, true, false, ◌&&◌, ◌==◌,
  if◌then◌else◌, length, replicate, drop,
}

-- `used n` is an allocation of `n + 1` blocks.
pub data Cell : Type 0 where
  free : Cell
  used : ℕ → Cell

-- What `in_use_` holds for a cell: the count in the first block, 255 in the others.
abbrev pub render_cell : Cell → List ℕ
render_cell free = 0 ∷ []
render_cell (used n) = suc n ∷ replicate n 255

abbrev pub render : List Cell → List ℕ
render [] = []
render (c ∷ cs) = render_cell c ++ render cs

-- The first `k` blocks of the rest of the storage are free.
abbrev pub starts_free : ℕ → List ℕ → Bool
starts_free zero l = true
starts_free (suc k) [] = false
starts_free (suc k) (x ∷ l) = x == 0 && starts_free k l

-- The lowest index from which `k` blocks are free.
abbrev pub first_fit : ℕ → List ℕ → Option ℕ
first_fit k [] = none
first_fit k (x ∷ l) = if starts_free k (x ∷ l) then some 0 else Option.map suc (first_fit k l)

-- The same on cells.
abbrev pub frees : ℕ → List Cell → Bool
frees zero cs = true
frees (suc k) [] = false
frees (suc k) (free ∷ cs) = frees k cs
frees (suc k) (used n ∷ cs) = false

abbrev pub behind : Cell → Option (ℕ × List Cell) → Option (ℕ × List Cell)
behind c none = none
behind c (some (i, cs)) = some (length (render_cell c) + i, c ∷ cs)

-- The first free stretch of `k` blocks becomes one allocation; `none` if there is none.
abbrev pub reserve : ℕ → List Cell → Option (ℕ × List Cell)
reserve k [] = none
reserve k (c ∷ cs) =
    if frees k (c ∷ cs) then some (0, used (k - 1) ∷ drop k (c ∷ cs)) else behind c (reserve k cs)
