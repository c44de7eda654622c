-- ===== src/Stream/Response/Encode.antt =====
-- What the operators << of response.cpp append to a stack_response.
use mathlib.Core.List.{append_assoc, append-nil}
use cpp_alls.Prelude.{
  ℕ, ◌+◌, ◌%◌, ◌^◌, ◌<◌, ◌≡◌, ap, ◌∙◌, sym, List, [], ◌∷◌, ◌++◌, arith, lt→ltb, length,
  length-append, M, ok, pure, ◌>>◌,
}
use cpp_alls.Stream.Scalar.{
  Scalar, boolean, character, unsigned_character, int, unsigned_int, width, Host, little_bytes,
  encode, encode_string, encode_elements, encode_vector,
}
use cpp_alls.Stream.Response.{
  StackResponse, npos, put_data, do_ostream, put, put_bool, put_character, put_unsigned_character,
  put_string, put_elements, put_vector,
}

abbrev pub response : List ℕ → StackResponse
response bs = record { bytes = bs }

-- The action succeeds and appends exactly these bytes.
abbrev pub Writes : M StackResponse (Unit {0}) → List ℕ → Type 0
Writes m bs =
    (old : List ℕ)
    → length old + length bs < 2 ^ 64
    → m (response old) ≡ (ok tt, response (old ++ bs))

pub put_data-Writes : (source : List ℕ) → Writes (put_data source npos) source
unfolding put_data
put_data-Writes source old h = ground arith

pub pure-Writes : Writes (pure tt) []
pure-Writes old h = ap (λ l. (ok tt, response l)) (sym (append-nil old))

pub >>-Writes :
    (m k : M StackResponse (Unit {0})) (xs ys : List ℕ)
    → Writes m xs
    → Writes k ys
    → Writes (m >> k) (xs ++ ys)
>>-Writes m k xs ys p q old h = rw (p old (omega (arith, length-append xs ys))) (
    q (old ++ xs) (omega (arith, length-append xs ys, length-append old xs))
    ∙ ap (λ l. (ok tt, response l)) (append_assoc old xs ys))

module _ (host : Host) where
  do_ostream-Writes : (t : Scalar) (v : ℕ) → Writes (do_ostream host t v) (little_bytes (width t) v)
  unfolding do_ostream
  do_ostream-Writes t v =
      rw (host.native_to_little_lem (width t) v) (put_data-Writes (little_bytes (width t) v))

  -- Every `operator <<` on an arithmetic value appends the little-endian bytes of the value, of the
  -- width of its type, but of the width of `int` for the types of one byte.
  pub put-Writes : (t : Scalar) (v : ℕ) → Writes (put host t v) (encode t v)
  unfolding put put_bool put_character put_unsigned_character
  put-Writes boolean v = do_ostream-Writes int v
  put-Writes character v = do_ostream-Writes int _
  put-Writes unsigned_character v = do_ostream-Writes int v
  put-Writes t v = do_ostream-Writes t v

  pub put_string-Writes :
      (val : List ℕ) → length val < 2 ^ 32 → Writes (put_string host val) (encode_string val)
  unfolding put_string
  put_string-Writes val h = rw (lt→ltb (length val) (2 ^ 32) h) (
      >>-Writes (put host unsigned_int (length val)) (put_data val npos) _ val
        (put-Writes unsigned_int (length val)) (put_data-Writes val))

  module _ {A : Type 0} (put_element : A → M StackResponse (Unit {0})) (f : A → List ℕ)
      (w : (x : A) → Writes (put_element x) (f x)) where
    put_elements-Writes :
        (xs : List A) → Writes (put_elements host put_element xs) (encode_elements f xs)
    unfolding put_elements
    put_elements-Writes [] = pure-Writes
    put_elements-Writes (x ∷ xs) =
        >>-Writes (put_element x) (put_elements host put_element xs) (f x) _ (w x)
          (put_elements-Writes xs)

    pub put_vector-Writes :
        (xs : List A)
        → length xs < 2 ^ 32
        → Writes (put_vector host put_element xs) (encode_vector f xs)
    unfolding put_vector
    put_vector-Writes xs h = rw (fits) (
        >>-Writes (put host unsigned_int (length xs)) (put_elements host put_element xs) _ _
          (put-Writes unsigned_int (length xs)) (put_elements-Writes xs))
      where
        fits : length xs % 2 ^ 32 ≡ length xs
        fits = omega arith
