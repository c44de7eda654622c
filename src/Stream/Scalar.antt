-- ===== src/Stream/Scalar.antt =====
-- The arithmetic types of request.hpp and response.hpp, and their bytes. A value is its bit
-- pattern as a number: of a signed type the two's complement, of a floating type the IEEE pattern.
use native.Mathlib.Nat.{pow-suc}
use cpp_alls.Prelude.{
  ℕ, zero, suc, ◌+◌, ◌*◌, ◌/◌, ◌%◌, ◌^◌, ◌<◌, ◌≡◌, refl, ap, List, [], ◌∷◌, ◌++◌, arith, length,
  ltb, if◌then◌else◌, ◌-◌,
}

pub data Scalar : Type 0 where
  boolean character unsigned_character : Scalar
  short unsigned_short int unsigned_int long unsigned_long long_long unsigned_long_long : Scalar
  float double long_double : Scalar

-- `sizeof` on the 64-bit System V platforms.
abbrev pub width : Scalar → ℕ
width boolean = 1
width character = 1
width unsigned_character = 1
width short = 2
width unsigned_short = 2
width int = 4
width unsigned_int = 4
width long = 8
width unsigned_long = 8
width long_long = 8
width unsigned_long_long = 8
width float = 4
width double = 8
width long_double = 16

-- The low `w` bytes of a number, the lowest first.
unfoldable pub little_bytes : ℕ → ℕ → List ℕ
little_bytes zero v = []
little_bytes (suc w) v = v % 256 ∷ little_bytes w (v / 256)

pub little_value : List ℕ → ℕ
little_value [] = 0
little_value (b ∷ bs) = b + 256 * little_value bs

-- What the code takes from the platform and from Boost.Endian: the memory of an object as bytes,
-- and the conversions, which are documented to make that memory little-endian, or to read it so.
pub record Host : Type 0 where
  pub object_bytes : ℕ → ℕ → List ℕ
  pub object_value : List ℕ → ℕ
  pub native_to_little : ℕ → ℕ → ℕ
  pub little_to_native : ℕ → ℕ → ℕ
  pub native_to_little_lem : (w v : ℕ) → object_bytes w (native_to_little w v) ≡ little_bytes w v
  pub little_to_native_lem :
      (bs : List ℕ) → little_to_native (length bs) (object_value bs) ≡ little_value bs

-- A little-endian machine, where the conversions do nothing.
abbrev pub little_endian : Host
little_endian = record {
  object_bytes = little_bytes;
  object_value = little_value;
  native_to_little = λ w v. v;
  little_to_native = λ w v. v;
  native_to_little_lem = λ w v. refl;
  little_to_native_lem = λ bs. refl;
}

pub length-little_bytes : (w v : ℕ) → length (little_bytes w v) ≡ w
unfolding little_bytes
length-little_bytes zero v = refl
length-little_bytes (suc w) v = ap suc (length-little_bytes w (v / 256))

pub little_value-little_bytes : (w v : ℕ) → v < 256 ^ w → little_value (little_bytes w v) ≡ v
unfolding little_bytes little_value
little_value-little_bytes zero v h = omega arith
little_value-little_bytes (suc w) v h =
    omega (arith, little_value-little_bytes w (v / 256) (omega (arith, pow-suc 256 w, h)))

-- The bytes of a value as `operator <<` writes them: the three narrow types are written as `int`.
abbrev pub encode : Scalar → ℕ → List ℕ
encode boolean v = little_bytes 4 v
encode character v = little_bytes 4 (if ltb v 128 then v else v + (2 ^ 32 - 256))
encode unsigned_character v = little_bytes 4 v
encode t v = little_bytes (width t) v

abbrev pub encode_string : List ℕ → List ℕ
encode_string val = little_bytes 4 (length val) ++ val

abbrev pub encode_elements {ℓ} : {A : Type ℓ} → (A → List ℕ) → List A → List ℕ
encode_elements f [] = []
encode_elements f (x ∷ xs) = f x ++ encode_elements f xs

abbrev pub encode_vector {ℓ} : {A : Type ℓ} → (A → List ℕ) → List A → List ℕ
encode_vector f xs = little_bytes 4 (length xs) ++ encode_elements f xs

-- A number below 256 in four bytes is the number and three zeros.
pub little_bytes_small :
    (v : ℕ) → v < 256 → little_bytes 4 v ≡ little_bytes 1 v ++ (little_bytes 2 0 ++ (0 ∷ []))
unfolding little_bytes
little_bytes_small v h = ground arith
