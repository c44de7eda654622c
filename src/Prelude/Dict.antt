-- ===== src/Prelude/Dict.antt =====
-- `std::unordered_map` with text keys as an association list. The order of its entries stands for
-- the order, which the standard leaves open, in which a loop over the map visits them.
use Prim.Native.String.{String}
use mathlib.Core.Path.{◌≡◌, refl}
use mathlib.Core.List.{List, [], ◌∷◌, ◌++◌}
use mathlib.Core.Bool.{false}
use mathlib.Core.Option.{Option, none, some}
use native.Mathlib.Omega.{arith}
use cpp_alls.Prelude.Tests.{str_eq, str_eq_iff, if◌then◌else◌}

module _ {ℓ} {V : Type ℓ} where
  abbrev pub find : String → List (String × V) → Option V
  find k [] = none
  find k ((j, v) ∷ m) = if str_eq j k then some v else find k m

  -- `insert`, `emplace`: an entry that is there stays.
  abbrev pub emplace : String → V → List (String × V) → List (String × V)
  emplace k v [] = (k, v) ∷ []
  emplace k v ((j, w) ∷ m) = if str_eq j k then (j, w) ∷ m else (j, w) ∷ emplace k v m

  abbrev pub erase : String → List (String × V) → List (String × V)
  erase k [] = []
  erase k ((j, v) ∷ m) = if str_eq j k then erase k m else (j, v) ∷ erase k m

  abbrev pub or_else : Option V → Option V → Option V
  or_else (some v) o = some v
  or_else none o = o

  pub find-emplace :
      (k j : String) (v : V) (m : List (String × V))
      → find j (emplace k v m) ≡ (if str_eq k j then or_else (find k m) (some v) else find j m)
  find-emplace k j v [] = refl
  find-emplace k j v ((i, w) ∷ m) =
      ground (arith, str_eq_iff k j, str_eq_iff i k, str_eq_iff i j, find-emplace k j v m)

  pub find-emplace_new :
      (k : String) (v : V) (m : List (String × V))
      → find k m ≡ none
      → find k (emplace k v m) ≡ some v
  find-emplace_new k v m h = ground (arith, str_eq_iff k k, find-emplace k k v m, h)

  pub find-erase :
      (k j : String) (m : List (String × V))
      → find j (erase k m) ≡ (if str_eq k j then none else find j m)
  find-erase k j [] = ground arith
  find-erase k j ((i, w) ∷ m) =
      ground (arith, str_eq_iff k j, str_eq_iff i k, str_eq_iff i j, find-erase k j m)

  -- A new entry comes last.
  pub emplace-new :
      (k : String) (v : V) (m : List (String × V))
      → find k m ≡ none
      → emplace k v m ≡ m ++ ((k, v) ∷ [])
  emplace-new k v [] h = refl
  emplace-new k v ((i, w) ∷ m) h = ground (arith, h, emplace-new k v m)

  pub find-last :
      (j k : String) (v : V) (m : List (String × V))
      → find j m ≡ none
      → str_eq k j ≡ false
      → find j (m ++ ((k, v) ∷ [])) ≡ none
  find-last j k v [] h other = rw other refl
  find-last j k v ((i, w) ∷ m) h other = ground (arith, h, other, find-last j k v m)
