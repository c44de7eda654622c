-- ===== src/Stream/Request/Reader.antt =====
-- The operators >> of request.cpp over any class that extracts data: what they take from its input,
-- from what an extraction takes.
use mathlib.Core.List.{append-nil}
use mathlib.Core.Path.{subst}
use cpp_alls.Prelude.{
  ℕ, ◌^◌, ◌≤◌, ◌<◌, ◌≡◌, ap, ◌∙◌, sym, List, [], ◌∷◌, ◌++◌, arith, length, M, pure, ◌>>=◌, All,
}
use cpp_alls.Stream.Scalar.{
  Scalar, boolean, unsigned_character, unsigned_int, width, Host, little_bytes, length-little_bytes,
  encode_elements, encode_vector, little_value-little_bytes,
}
use cpp_alls.Stream.Request.{do_istream, get_bool, get, get_string, get_elements, get_vector}

-- `Takes m bs a` says that an action on an input that begins with these bytes takes just them, and
-- returns this value.
pub record Reader {S : Type 0} (extract : ℕ → M S (List ℕ)) : Type 1 where
  pub Takes : {A : Type 0} → M S A → List ℕ → A → Type 0
  pub pure_lem : {A : Type 0} (a : A) → Takes (pure a) [] a
  pub bind_lem :
      {A B : Type 0} (m : M S A) (f : A → M S B) (a : A) (b : B) (xs ys : List ℕ)
      → Takes m xs a
      → Takes (f a) ys b
      → Takes (m >>= f) (xs ++ ys) b
  pub extract_lem : (bs : List ℕ) → Takes (extract (length bs)) bs bs

module _ {S : Type 0} (extract : ℕ → M S (List ℕ)) (reader : Reader extract) where
  open reader use {Takes, pure_lem, bind_lem, extract_lem}

  pub map-Takes :
      {A B : Type 0} (m : M S A) (g : A → B) (a : A) (xs : List ℕ)
      → Takes m xs a
      → Takes (m >>= λ x. pure (g x)) xs (g a)
  map-Takes m g a xs p =
      subst (λ l. Takes (m >>= λ x. pure (g x)) l (g a)) (append-nil xs)
        (bind_lem m (λ x. pure (g x)) a (g a) xs [] p (pure_lem (g a)))

  module _ (host : Host) where
    open host use {object_value, little_to_native, little_to_native_lem}

    do_istream-Takes :
        (t : Scalar) (v : ℕ)
        → v < 256 ^ width t
        → Takes (do_istream host extract t) (little_bytes (width t) v) v
    unfolding do_istream
    do_istream-Takes t v h = subst (Takes (do_istream host extract t) bytes) value (
        map-Takes (extract (width t)) (λ bs. little_to_native (width t) (object_value bs)) bytes
          bytes exact)
      where
        bytes : List ℕ
        bytes = little_bytes (width t) v

        exact : Takes (extract (width t)) bytes bytes
        exact =
            subst (λ n. Takes (extract n) bytes bytes) (length-little_bytes (width t) v)
              (extract_lem bytes)

        value : little_to_native (width t) (object_value bytes) ≡ v
        value =
            ap (λ w. little_to_native w (object_value bytes))
              (sym (length-little_bytes (width t) v))
            ∙ little_to_native_lem bytes
            ∙ little_value-little_bytes (width t) v h

    -- Every `operator >>` on an arithmetic type wider than one byte takes as many bytes as the type
    -- has, and returns the value that they encode, the lowest byte first.
    pub get-Takes :
        (t : Scalar) (v : ℕ)
        → 1 < width t
        → v < 256 ^ width t
        → Takes (get host extract t) (little_bytes (width t) v) v
    unfolding get
    get-Takes boolean v wide h = absurd (omega arith)
    get-Takes t v wide h = do_istream-Takes t v h

    -- Of a `bool` one byte is read.
    pub get_bool-Takes : (v : ℕ) → v ≤ 1 → Takes (get host extract boolean) (little_bytes 1 v) v
    unfolding get get_bool
    get_bool-Takes v h =
        subst (Takes (get host extract boolean) (little_bytes 1 v)) (ground arith) (
          map-Takes (do_istream host extract unsigned_character) _ v _
            (do_istream-Takes unsigned_character v (omega arith)))

    pub get_string-Takes :
        (val : List ℕ)
        → length val < 2 ^ 32
        → Takes (get_string host extract) (little_bytes 4 (length val) ++ val) val
    unfolding get_string
    get_string-Takes val h =
        bind_lem (get host extract unsigned_int) extract (length val) val _ val
          (get-Takes unsigned_int (length val) (omega arith) (omega arith)) (extract_lem val)

    module _ {A : Type 0} (get_element : M S A) (f : A → List ℕ) where
      get_elements-Takes :
          (P : A → Type 0)
          → ((x : A) → P x → Takes get_element (f x) x)
          → (xs : List A) → All P xs
          → Takes (get_elements host extract get_element (length xs)) (encode_elements f xs) xs
      unfolding get_elements
      get_elements-Takes P r [] h = pure_lem []
      get_elements-Takes P r (x ∷ xs) h =
          bind_lem get_element _ x (x ∷ xs) (f x) (encode_elements f xs) (r x h.0) (
            map-Takes (get_elements host extract get_element (length xs)) (λ l. x ∷ l) xs
              (encode_elements f xs) (get_elements-Takes P r xs h.1))

      pub get_vector-Takes :
          (P : A → Type 0)
          → ((x : A) → P x → Takes get_element (f x) x)
          → (xs : List A) → length xs < 2 ^ 32
          → All P xs
          → Takes (get_vector host extract get_element) (encode_vector f xs) xs
      unfolding get_vector
      get_vector-Takes P r xs fits h =
          bind_lem (get host extract unsigned_int) (get_elements host extract get_element)
            (length xs) xs _ _ (get-Takes unsigned_int (length xs) (omega arith) (omega arith))
            (get_elements-Takes P r xs h)
