-- ===== src/Prelude/Elements.antt =====
-- A property of all elements of a list, through appending and for one element of it.
use mathlib.Core.Path.{◌≡◌, subst}
use mathlib.Core.List.{List, [], ◌∷◌, ◌++◌}
use cpp_alls.Prelude.Lists.{All}

pub All-append {ℓ κ} :
    {A : Type ℓ} (P : A → Type κ) (xs ys : List A) → All P xs → All P ys → All P (xs ++ ys)
All-append P [] ys h k = k
All-append P (x ∷ xs) ys (h, t) k = (h, All-append P xs ys t k)

pub All-append_left {ℓ κ} :
    {A : Type ℓ} (P : A → Type κ) (xs ys : List A) → All P (xs ++ ys) → All P xs
All-append_left P [] ys h = tt
All-append_left P (x ∷ xs) ys (h, t) = (h, All-append_left P xs ys t)

pub All-append_right {ℓ κ} :
    {A : Type ℓ} (P : A → Type κ) (xs ys : List A) → All P (xs ++ ys) → All P ys
All-append_right P [] ys h = h
All-append_right P (x ∷ xs) ys (h, t) = All-append_right P xs ys t

-- One element of a list taken out or changed.
module _ {A : Type 0} (P : A → Type 0) (xs before after : List A) (a : A)
    (e : xs ≡ before ++ (a ∷ after)) (h : All P xs) where
  here : All P (a ∷ after)
  here = All-append_right P before (a ∷ after) (subst (All P) e h)

  there : All P before
  there = All-append_left P before (a ∷ after) (subst (All P) e h)

  pub split-element : P a
  split-element = here.0

  pub split-rest : All P (before ++ after)
  split-rest = All-append P before after there here.1

  pub split-changed : (b : A) → P b → All P (before ++ (b ∷ after))
  split-changed b k = All-append P before (b ∷ after) there (k, here.1)
