-- ===== src/Network/Accepts.antt =====
-- The accepts under way that have not been aborted.
use cpp_alls.Prelude.{
  ◌⊎◌, ℕ, suc, ◌+◌, ◌≡◌, refl, List, [], ◌∷◌, ◌++◌, Option, none, some, Bool, true, false,
  if◌then◌else◌, All, arith,
}
use cpp_alls.Network.{Completion, success, aborted, failed, Accept, close}

abbrev pub is_live : Option Completion → Bool
is_live none = true
is_live (some aborted) = false
is_live (some success) = true
is_live (some (failed e)) = true

abbrev pub count_live : List Accept → ℕ
count_live [] = 0
count_live (a ∷ accepts) = if is_live a.result then suc (count_live accepts) else count_live accepts

-- An accept that has not been aborted waits on the given acceptor.
abbrev pub IsOn : Option ℕ → Accept → Type 0
IsOn acceptor a = is_live a.result ≡ true → acceptor ≡ some a.acceptor

-- No completed accept waits for its handler, but those that were aborted.
abbrev pub IsQuiet : Accept → Type 0
IsQuiet a = (a.result ≡ none) ⊎ (a.result ≡ some aborted)

pub count_live-append :
    (xs ys : List Accept) → count_live (xs ++ ys) ≡ count_live xs + count_live ys
count_live-append [] ys = omega arith
count_live-append (x ∷ xs) ys = ground (arith, count_live-append xs ys)

pub count_live-IsOn :
    (acceptor : Option ℕ) (xs : List Accept) → count_live xs ≡ 0 → All (IsOn acceptor) xs
count_live-IsOn acceptor [] e = tt
count_live-IsOn acceptor (x ∷ xs) e =
    (λ l. absurd (ground (arith, e, l)), count_live-IsOn acceptor xs (ground (arith, e)))

pub IsOn-none : (xs : List Accept) → All (IsOn none) xs → count_live xs ≡ 0
IsOn-none [] h = refl
IsOn-none (x ∷ xs) (h, t) = ground (arith, IsOn-none xs t)

-- Closing an acceptor aborts all that waits, if nothing that has completed is left.
pub count_live-close :
    (acceptor : ℕ) (xs : List Accept)
    → All IsQuiet xs
    → All (IsOn (some acceptor)) xs
    → count_live (close acceptor xs) ≡ 0
count_live-close acceptor [] q h = refl
count_live-close acceptor (x ∷ xs) (q, qs) (h, hs) =
    ground (arith, q, h, count_live-close acceptor xs qs hs)
