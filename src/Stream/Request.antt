-- ===== src/Stream/Request.antt =====
-- request.hpp, request.cpp and stack_request.cpp.
pub mod Reader
pub mod Decode
use cpp_alls.Prelude.{
  ℕ, zero, suc, ◌+◌, ◌-◌, ◌%◌, ◌^◌, ◌≡◌, List, [], ◌∷◌, ◌++◌, leb, ltb, ◌==◌, if◌then◌else◌, length,
  take, drop, replicate, M, ok, undefined, throws, range_error, pure, ◌>>=◌, ◌>>◌, continue_with,
}
use cpp_alls.Stream.Scalar.{
  Scalar, boolean, character, unsigned_character, int, unsigned_int, width, Host,
}

pub record StackRequest : Type 0 where
  pub bytes : List ℕ
  pub data_extracted : ℕ

pub init : StackRequest
init = record { bytes = []; data_extracted = 0 }

-- `begin()` to `end()`: what has not been extracted.
abbrev pub unread : StackRequest → List ℕ
unread s = drop s.data_extracted s.bytes

-- `size + data_extracted_` wraps on `std::size_t`; a copy past the end is undefined.
unfoldable pub extract_data : ℕ → M StackRequest (List ℕ)
extract_data size s =
    if ltb (length s.bytes) ((size + s.data_extracted) % 2 ^ 64)
    then (throws range_error, s)
    else if leb (size + s.data_extracted) (length s.bytes)
    then (ok (take size (unread s)), record s { data_extracted = s.data_extracted + size })
    else (undefined, s)

unfoldable pub clear : StackRequest → StackRequest
clear s = record { bytes = []; data_extracted = 0 }

-- `small_vector::resize`: it cuts off at the end, or appends zeros.
unfoldable pub resize : ℕ → StackRequest → StackRequest
resize size s = record s { bytes = take size s.bytes ++ replicate (size - length s.bytes) 0 }

unfoldable pub shrink : StackRequest → StackRequest
shrink s = record { bytes = unread s; data_extracted = 0 }

-- The operators of the base class call the `extract_data` of the class at hand.
module _ {S : Type 0} (host : Host) (extract : ℕ → M S (List ℕ)) where
  open host use {object_value, little_to_native}

  unfoldable pub do_istream : Scalar → M S ℕ
  do_istream t = do bs ← extract (width t); pure (little_to_native (width t) (object_value bs))

  -- `val = !!c`
  pub get_bool : M S ℕ
  get_bool = do c ← do_istream unsigned_character; pure (if c == 0 then 0 else 1)

  unfoldable pub get : Scalar → M S ℕ
  get boolean = get_bool
  get t = do_istream t

  pub get_string : M S (List ℕ)
  get_string = do size ← get unsigned_int; extract size

  module _ {A : Type 0} (get_element : M S A) where
    -- The rounds of the loop over `size` elements.
    pub get_elements : ℕ → M S (List A)
    get_elements zero = pure []
    get_elements (suc n) = do v ← get_element; rest ← get_elements n; pure (v ∷ rest)

    pub get_vector : M S (List A)
    get_vector = do size ← get unsigned_int; get_elements size
