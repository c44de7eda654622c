-- ===== src/Prelude/Effect.antt =====
-- Exceptions as values. An operation that may throw is a function from the state before it to its
-- outcome and the state that it leaves behind, also when it throws.
use mathlib.Core.Option.{Option, none, some}
use mathlib.Core.Logic.{◌≢◌}
use mathlib.Core.Path.{◌≡◌, refl, ap}

-- The exception classes that the program throws or lets through.
pub data Exception : Type 0 where
  range_error logic_error error_runtime bad_numeric_cast yaml_error system_error : Exception

-- `undefined` is undefined behaviour, such as an access out of bounds; `out_of_fuel` is no value of
-- the program: the rounds given to a loop of the model have run out.
pub data Outcome {ℓ} (A : Type ℓ) : Type ℓ where
  ok : A → Outcome A
  throws : Exception → Outcome A
  undefined : Outcome A
  out_of_fuel : Outcome A

abbrev pub M {ℓ} : Type 0 → Type ℓ → Type ℓ
M S A = S → Outcome A × S

abbrev pub pure {ℓ} : {S : Type 0} {A : Type ℓ} → A → M S A
pure a s = (ok a, s)

abbrev pub raise {ℓ} : {S : Type 0} {A : Type ℓ} → Exception → M S A
raise e s = (throws e, s)

-- An outcome as an action that changes no state.
abbrev pub lift {ℓ} : {S : Type 0} {A : Type ℓ} → Outcome A → M S A
lift r s = (r, s)

abbrev pub present {ℓ} : {A : Type ℓ} → Option A → Outcome A
present none = undefined
present (some a) = ok a

-- A use of a pointer, which is undefined if it is null.
abbrev pub required {ℓ} : {S : Type 0} {A : Type ℓ} → Option A → M S A
required o s = (present o, s)

abbrev pub continue_with {ℓ κ} :
    {S : Type 0} {A : Type ℓ} {B : Type κ} → Outcome A × S → (A → M S B) → Outcome B × S
continue_with (ok a, s) f = f a s
continue_with (throws e, s) f = (throws e, s)
continue_with (undefined, s) f = (undefined, s)
continue_with (out_of_fuel, s) f = (out_of_fuel, s)

infixl 5 ◌>>=◌ ◌>>◌
abbrev pub ◌>>=◌ {ℓ κ} : {S : Type 0} {A : Type ℓ} {B : Type κ} → M S A → (A → M S B) → M S B
◌>>=◌ m f s = continue_with (m s) f

abbrev pub ◌>>◌ {κ} : {S : Type 0} {B : Type κ} → M S (Unit {0}) → M S B → M S B
◌>>◌ m k s = continue_with (m s) (λ _. k)

-- Inversion: a chain of actions that succeeds is one of actions that succeed.
continue_with-eq-ok {ℓ κ} :
    {S : Type 0} {A : Type ℓ} {B : Type κ} (r : Outcome A) (s : S) (f : A → M S B) {b : B} {t : S}
    → continue_with (r, s) f ≡ (ok b, t)
    → (a : A) × (r ≡ ok a) × (f a s ≡ (ok b, t))
continue_with-eq-ok (ok a) s f h = (a, refl, h)
continue_with-eq-ok (throws e) s f h = absurd (cc (ap (λ r. r.0) h))
continue_with-eq-ok undefined s f h = absurd (cc (ap (λ r. r.0) h))
continue_with-eq-ok out_of_fuel s f h = absurd (cc (ap (λ r. r.0) h))

pub >>=-eq-ok {ℓ κ} :
    {S : Type 0} {A : Type ℓ} {B : Type κ} (m : M S A) (f : A → M S B) (s : S) {b : B} {t : S}
    → (m >>= f) s ≡ (ok b, t)
    → (a : A) × (u : S) × (m s ≡ (ok a, u)) × (f a u ≡ (ok b, t))
>>=-eq-ok m f s h =
    let (a, e, k) = continue_with-eq-ok (m s).0 (m s).1 f h in
    (a, (m s).1, ap (λ r. (r, (m s).1)) e, k)

pub continue_with-continue_with {ℓ κ μ} :
    {S : Type 0} {A : Type ℓ} {B : Type κ} {C : Type μ} (q : Outcome A × S) (f : A → M S B)
    (g : B → M S C)
    → continue_with q (λ a s. continue_with (f a s) g) ≡ continue_with (continue_with q f) g
continue_with-continue_with (ok a, s) f g = refl
continue_with-continue_with (throws e, s) f g = refl
continue_with-continue_with (undefined, s) f g = refl
continue_with-continue_with (out_of_fuel, s) f g = refl

-- What holds of a state, and is kept by what follows a call that leaves this state, holds at the end.
pub continue_with-keeps {ℓ κ μ} :
    {S : Type 0} {A : Type ℓ} {B : Type κ} (P : S → Type μ) (r : Outcome A) (s : S) (f : A → M S B)
    → P s
    → ((a : A) → P (f a s).1)
    → P (continue_with (r, s) f).1
continue_with-keeps P (ok a) s f h k = k a
continue_with-keeps P (throws e) s f h k = h
continue_with-keeps P undefined s f h k = h
continue_with-keeps P out_of_fuel s f h k = h

-- A chain of actions is undefined only where one of them is.
pub continue_with-ne-undefined {ℓ κ} :
    {S : Type 0} {A : Type ℓ} {B : Type κ} (r : Outcome A) (s : S) (f : A → M S B)
    → r ≢ undefined
    → ((a : A) → r ≡ ok a → (f a s).0 ≢ undefined)
    → (continue_with (r, s) f).0 ≢ undefined
continue_with-ne-undefined (ok a) s f h k = k a refl
continue_with-ne-undefined (throws e) s f h k = λ q. cc q
continue_with-ne-undefined undefined s f h k = λ q. h refl
continue_with-ne-undefined out_of_fuel s f h k = λ q. cc q
