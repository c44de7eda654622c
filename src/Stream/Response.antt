-- ===== src/Stream/Response.antt =====
-- response.hpp, response.cpp and stack_response.cpp.
pub mod Encode
use cpp_alls.Prelude.{
  ℕ, zero, suc, ◌+◌, ◌-◌, ◌%◌, ◌^◌, ◌≡◌, List, [], ◌∷◌, ◌++◌, ltb, leb, if◌then◌else◌, length, take,
  replicate, drop, M, ok, undefined, raise, bad_numeric_cast, pure, ◌>>=◌, ◌>>◌, continue_with,
  true, false,
}
use cpp_alls.Stream.Scalar.{
  Scalar, boolean, character, unsigned_character, int, unsigned_int, width, Host,
}

-- The `small_vector` of a stack_response.
pub record StackResponse : Type 0 where
  pub bytes : List ℕ

-- `static_cast<std::size_t>(-1)`
abbrev pub npos : ℕ
npos = 2 ^ 64 - 1

unfoldable pub clear : StackResponse → StackResponse
clear s = record { bytes = [] }

-- `small_vector::resize`, and `begin()` to `end()`.
pub resize : ℕ → StackResponse → StackResponse
resize size s = record { bytes = take size s.bytes ++ replicate (size - length s.bytes) 0 }

abbrev pub contents : StackResponse → List ℕ
contents s = s.bytes

-- Before a position inside the buffer the insertion is at `begin() + size`, and past the end of the
-- buffer it is undefined.
unfoldable pub put_data : List ℕ → ℕ → M StackResponse (Unit {0})
put_data source pos s =
    if leb (length s.bytes) pos
    then (ok tt, record { bytes = s.bytes ++ source })
    else if leb (length source) (length s.bytes)
    then (
      ok tt,
      record { bytes = take (length source) s.bytes ++ (source ++ drop (length source) s.bytes) },
    )
    else (undefined, s)

module _ (host : Host) where
  open host use {object_bytes, native_to_little}

  pub do_ostream : Scalar → ℕ → M StackResponse (Unit {0})
  do_ostream t v = put_data (object_bytes (width t) (native_to_little (width t) v)) npos

  -- There is no overload for the character types: an `unsigned char` and a `char` are promoted to
  -- `int`, the second with its sign.
  pub put_unsigned_character : ℕ → M StackResponse (Unit {0})
  put_unsigned_character v = do_ostream int v

  pub put_character : ℕ → M StackResponse (Unit {0})
  put_character v = do_ostream int (if ltb v 128 then v else v + (2 ^ 32 - 256))

  -- `const unsigned char c = val; return (*this) << c;`
  pub put_bool : ℕ → M StackResponse (Unit {0})
  put_bool v = put_unsigned_character v

  -- The operator << that the overload resolution picks for an argument of the type.
  pub put : Scalar → ℕ → M StackResponse (Unit {0})
  put boolean v = put_bool v
  put character v = put_character v
  put unsigned_character v = put_unsigned_character v
  put t v = do_ostream t v

  pub put_string : List ℕ → M StackResponse (Unit {0})
  put_string val =
      if ltb (length val) (2 ^ 32)
      then (do put unsigned_int (length val); put_data val npos)
      else raise bad_numeric_cast

  module _ {A : Type 0} (put_element : A → M StackResponse (Unit {0})) where
    pub put_elements : List A → M StackResponse (Unit {0})
    put_elements [] = pure tt
    put_elements (x ∷ xs) = do put_element x; put_elements xs

    -- `const unsigned int size = val.size();`
    pub put_vector : List A → M StackResponse (Unit {0})
    put_vector val = do put unsigned_int (length val % 2 ^ 32); put_elements val
