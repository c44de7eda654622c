-- ===== src/Stream/Request/Decode.antt =====
-- What the operators >> of request.cpp take from a stack_request.
use mathlib.Core.List.{append_assoc, append-nil}
use cpp_alls.Prelude.{
  ℕ, ◌+◌, ◌^◌, ◌≤◌, ◌<◌, ◌≡◌, refl, ap, ◌∙◌, sym, List, [], ◌++◌, arith, length, length-append,
  take-append, drop-append, M, ok, pure, ◌>>=◌, take, drop,
}
use cpp_alls.Stream.Scalar.{Scalar, boolean, width, Host, little_bytes}
use cpp_alls.Stream.Request.Reader.{Reader, get-Takes, get_bool-Takes}
use cpp_alls.Stream.Request.{StackRequest, init, extract_data, get}

-- A request of which `front` has been extracted, and `rest` has not.
abbrev pub at : List ℕ → List ℕ → StackRequest
at front rest = record { bytes = front ++ rest; data_extracted = length front }

pub init-at : init ≡ at [] []
unfolding init
init-at = refl

-- The action takes exactly these bytes, and returns this value.
abbrev pub Reads {ℓ} : {A : Type ℓ} → M StackRequest A → List ℕ → A → Type ℓ
Reads m bs a =
    (front rest : List ℕ)
    → length front + (length bs + length rest) < 2 ^ 64
    → m (at front (bs ++ rest)) ≡ (ok a, at (front ++ bs) rest)

pub pure-Reads {ℓ} : {A : Type ℓ} (a : A) → Reads (pure a) [] a
pure-Reads a front rest h = ap (λ l. (ok a, at l rest)) (sym (append-nil front))

extract_data-at :
    (bs front rest : List ℕ)
    → length front + (length bs + length rest) < 2 ^ 64
    → extract_data (length bs) (at front (bs ++ rest)) ≡ (
      ok (take (length bs) (drop (length front) (front ++ (bs ++ rest)))),
      record { bytes = front ++ (bs ++ rest); data_extracted = length front + length bs },
    )
unfolding extract_data
extract_data-at bs front rest h =
    ground (arith, length-append front (bs ++ rest), length-append bs rest)

pub extract_data-Reads : (bs : List ℕ) → Reads (extract_data (length bs)) bs bs
extract_data-Reads bs front rest h = extract_data-at bs front rest h ∙ (λ i. (
  ok (taken i),
  record {
    bytes = sym (append_assoc front bs rest) i;
    data_extracted = sym (length-append front bs) i;
  },
))
  where
    taken : take (length bs) (drop (length front) (front ++ (bs ++ rest))) ≡ bs
    taken = ap (take (length bs)) (drop-append front (bs ++ rest)) ∙ take-append bs rest

pub >>=-Reads {ℓ κ} :
    {A : Type ℓ} {B : Type κ} (m : M StackRequest A) (f : A → M StackRequest B) (a : A) (b : B)
    (xs ys : List ℕ)
    → Reads m xs a
    → Reads (f a) ys b
    → Reads (m >>= f) (xs ++ ys) b
>>=-Reads m f a b xs ys p q front rest h =
    ap (λ l. (m >>= f) (at front l)) (append_assoc xs ys rest)
    ∙ rw (p front (ys ++ rest) (omega (arith, length-append xs ys, length-append ys rest))) (
        q (front ++ xs) rest (omega (arith, length-append xs ys, length-append front xs))
        ∙ ap (λ l. (ok b, at l rest)) (append_assoc front xs ys))

pub map-Reads {ℓ κ} :
    {A : Type ℓ} {B : Type κ} (m : M StackRequest A) (g : A → B) (a : A) (xs : List ℕ)
    → Reads m xs a
    → Reads (m >>= λ x. pure (g x)) xs (g a)
map-Reads m g a xs p front rest h = rw (p front rest h) refl

-- A stack_request reads as any class that extracts data does.
abbrev pub reads : Reader extract_data
reads = record {
  Takes = λ m bs a. Reads m bs a;
  pure_lem = λ a. pure-Reads a;
  bind_lem = λ m f a b xs ys p q. >>=-Reads m f a b xs ys p q;
  extract_lem = extract_data-Reads;
}

-- Every `operator >>` on an arithmetic type wider than one byte takes as many bytes as the type has,
-- and returns the value that they encode, the lowest byte first.
pub get-Reads :
    (host : Host) (t : Scalar) (v : ℕ)
    → 1 < width t
    → v < 256 ^ width t
    → Reads (get host extract_data t) (little_bytes (width t) v) v
get-Reads host t v wide h = get-Takes extract_data reads host t v wide h

-- Of a `bool` one byte is read.
pub get_bool-Reads :
    (host : Host) (v : ℕ) → v ≤ 1 → Reads (get host extract_data boolean) (little_bytes 1 v) v
get_bool-Reads host v h = get_bool-Takes extract_data reads host v h
