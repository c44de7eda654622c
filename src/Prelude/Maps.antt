-- ===== src/Prelude/Maps.antt =====
-- Association lists that stand for maps: no key is there twice.
use Prim.Native.String.{String}
use Prim.Native.Nat.{◌+◌}
use mathlib.Core.Path.{◌≡◌, refl, sym, ap, ◌∙◌}
use mathlib.Core.List.{List, [], ◌∷◌}
use mathlib.Core.Logic.{inl, inr}
use mathlib.Core.Option.{none, some}
use native.Mathlib.Omega.{arith}
use cpp_alls.Prelude.Lists.{length}
use cpp_alls.Prelude.Tests.{Bool-cases, Option-cases, str_eq, str_eq_iff}
use cpp_alls.Prelude.Dict.{find, emplace, erase, find-emplace, find-erase}

module _ {ℓ} {V : Type ℓ} where
  abbrev pub IsMap : List (String × V) → Type ℓ
  IsMap [] = Unit
  IsMap ((k, v) ∷ m) = (find k m ≡ none) × IsMap m

  -- Every entry of the first is in the second.
  abbrev pub Includes : List (String × V) → List (String × V) → Type ℓ
  Includes m n = (k : String) (v : V) → find k m ≡ some v → find k n ≡ some v

  pub emplace-IsMap : (k : String) (v : V) (m : List (String × V)) → IsMap m → IsMap (emplace k v m)
  emplace-IsMap k v [] h = (refl, tt)
  emplace-IsMap k v ((j, w) ∷ m) (new, h) = elim (Bool-cases (str_eq j k)) [
    | inl same ↦ rw same (new, h)
    | inr other ↦ rw other (
      ground (arith, find-emplace k j v m, str_eq_iff j k, str_eq_iff k j, new, other),
      emplace-IsMap k v m h,
    )
  ]

  erase-none : (k : String) (m : List (String × V)) → find k m ≡ none → erase k m ≡ m
  erase-none k [] h = refl
  erase-none k ((j, w) ∷ m) h = ground (arith, h, erase-none k m)

  erase-IsMap : (k : String) (m : List (String × V)) → IsMap m → IsMap (erase k m)
  erase-IsMap k [] h = tt
  erase-IsMap k ((j, w) ∷ m) (new, h) = elim (Bool-cases (str_eq j k)) [
    | inl same ↦ rw same (erase-IsMap k m h)
    | inr other ↦ rw other (ground (arith, find-erase k j m, new), erase-IsMap k m h)
  ]

  length-erase :
      (k : String) (v : V) (m : List (String × V))
      → IsMap m
      → find k m ≡ some v
      → length m ≡ length (erase k m) + 1
  length-erase k v [] h e = absurd (cc e)
  length-erase k v ((j, w) ∷ m) (new, h) e = elim (Bool-cases (str_eq j k)) [
    | inl same ↦
        let equal : j ≡ k = (str_eq_iff j k).0 same in
        let kept = erase-none k m (ap (λ i. find i m) (sym equal) ∙ new) in
        rw same (omega (arith, ap length kept))
    | inr other ↦
        let there : find k m ≡ some v = rw other at e in
        rw other (omega (arith, length-erase k v m h there))
  ]

  -- A map that includes another of the same length is included in it.
  pub Includes-back :
      (m n : List (String × V))
      → IsMap m
      → IsMap n
      → length m ≡ length n
      → Includes m n
      → Includes n m
  Includes-back [] [] hm hn e h k v there = there
  Includes-back [] (x ∷ n) hm hn e h k v there = absurd (omega (arith, e))
  Includes-back ((j, w) ∷ m) n (new, hm) hn e h k v there =
      let first : find j n ≡ some w = h j w (rw ((str_eq_iff j j).1 refl) refl) in
      let rest : Includes m (erase j n) = λ i u held. elim (Bool-cases (str_eq j i)) [
        | inl same ↦
            let equal : j ≡ i = (str_eq_iff j i).0 same in
            absurd (cc (sym new ∙ ap (λ i. find i m) equal ∙ held))
        | inr other ↦
            let kept : find i n ≡ some u = h i u (rw other held) in find-erase j i n ∙ rw other kept
      ] in
      let back =
        Includes-back m (erase j n) hm (erase-IsMap j n hn)
          (omega (arith, e, length-erase j w n hn first)) rest k v in
      elim (Bool-cases (str_eq j k)) [
        | inl same ↦
            let equal : j ≡ k = (str_eq_iff j k).0 same in
            rw same (sym first ∙ ap (λ i. find i n) equal ∙ there)
        | inr other ↦ rw other (back (find-erase j k n ∙ rw other there))
      ]

  -- Maps that include each other stand for the same map.
  pub Includes-find :
      (m n : List (String × V)) → Includes m n → Includes n m → (k : String) → find k m ≡ find k n
  Includes-find m n h back k = elim (Option-cases (find k m)) [
    | inr (v, held) ↦ held ∙ sym (h k v held)
    | inl nothing ↦ elim (Option-cases (find k n)) [
      | inr (v, held) ↦ absurd (cc (sym nothing ∙ back k v held))
      | inl also ↦ nothing ∙ sym also
    ]
  ]

  pub same-length :
      (m n : List (String × V))
      → IsMap m
      → IsMap n
      → ((k : String) → find k m ≡ find k n)
      → length m ≡ length n
  same-length [] [] hm hn e = refl
  same-length [] ((j, w) ∷ n) hm hn e = absurd (cc (rw ((str_eq_iff j j).1 refl) at (e j)))
  same-length ((j, w) ∷ m) n (new, hm) hn e =
      let first : find j n ≡ some w = sym (rw ((str_eq_iff j j).1 refl) at (e j)) in
      let rest : (k : String) → find k m ≡ find k (erase j n) = λ k.
        elim (Bool-cases (str_eq j k)) [
          | inl same ↦
              let equal : j ≡ k = (str_eq_iff j k).0 same in
              ap (λ i. find i m) (sym equal) ∙ new ∙ sym (find-erase j k n ∙ rw same refl)
          | inr other ↦
              let kept : find k m ≡ find k n = rw other at (e k) in
              kept ∙ sym (find-erase j k n ∙ rw other refl)
        ] in
      omega
        (arith, same-length m (erase j n) hm (erase-IsMap j n hn) rest, length-erase j w n hn first)
