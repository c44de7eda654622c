-- ===== src/Stream/RoundTrip.antt =====
-- What is written by the operators << and read back by the operators >>.
use mathlib.Core.List.{append_assoc}
use cpp_alls.Prelude.{
  ℕ, ◌+◌, ◌^◌, ◌≤◌, ◌<◌, ◌≡◌, refl, ap, ◌∙◌, List, [], ◌∷◌, ◌++◌, arith, length, length-append, All,
  M, ok, pure, ◌>>=◌, ◌>>◌, map,
}
use cpp_alls.Stream.Scalar.{
  Scalar, boolean, character, unsigned_character, short, little_bytes_small, length-little_bytes,
  width, Host, little_bytes, encode, encode_string, encode_vector,
}
use cpp_alls.Stream.Response.{StackResponse, put, put_string, put_vector}
use cpp_alls.Stream.Response.Encode.{
  response, Writes, pure-Writes, >>-Writes, put-Writes, put_string-Writes, put_vector-Writes,
}
use cpp_alls.Stream.Request.{StackRequest, extract_data, get, get_string, get_vector}
use cpp_alls.Stream.Request.Reader.{
  Reader, map-Takes, get-Takes, get_string-Takes, get_vector-Takes,
}
use cpp_alls.Stream.Request.Decode.{
  reads, at, Reads, >>=-Reads, map-Reads, get-Reads, get_bool-Reads,
}

-- A value that a client sends, and what the receiver knows of it before it reads.
pub data Item : Type 0 where
  scalar : Scalar → ℕ → Item
  text : List ℕ → Item
  vector : Scalar → List ℕ → Item

pub data Shape : Type 0 where
  scalar : Scalar → Shape
  text : Shape
  vector : Scalar → Shape

abbrev pub shape : Item → Shape
shape (Item.scalar t v) = Shape.scalar t
shape (Item.text bs) = Shape.text
shape (Item.vector t vs) = Shape.vector t

-- The value fits its type, which is wider than a byte; lengths fit `unsigned int`.
abbrev pub IsSendable : Item → Type 0
IsSendable (Item.scalar t v) = (1 < width t) × (v < 256 ^ width t)
IsSendable (Item.text bs) = length bs < 2 ^ 32
IsSendable (Item.vector t vs) =
    (1 < width t) × (length vs < 2 ^ 32) × All (λ v. v < 256 ^ width t) vs

abbrev encode_item : Item → List ℕ
encode_item (Item.scalar t v) = little_bytes (width t) v
encode_item (Item.text bs) = encode_string bs
encode_item (Item.vector t vs) = encode_vector (little_bytes (width t)) vs

abbrev pub encode_items : List Item → List ℕ
encode_items [] = []
encode_items (x ∷ xs) = encode_item x ++ encode_items xs

encode_wide : (t : Scalar) (v : ℕ) → 1 < width t → encode t v ≡ little_bytes (width t) v
encode_wide boolean v h = absurd (omega arith)
encode_wide character v h = absurd (omega arith)
encode_wide unsigned_character v h = absurd (omega arith)
encode_wide t v h = refl

module _ (host : Host) where
  abbrev pub put_item : Item → M StackResponse (Unit {0})
  put_item (Item.scalar t v) = put host t v
  put_item (Item.text bs) = put_string host bs
  put_item (Item.vector t vs) = put_vector host (put host t) vs

  abbrev pub put_items : List Item → M StackResponse (Unit {0})
  put_items [] = pure tt
  put_items (x ∷ xs) = put_item x >> put_items xs

  put_item-Writes : (x : Item) → IsSendable x → Writes (put_item x) (encode_item x)
  put_item-Writes (Item.scalar t v) (wide, h) = rw (encode_wide t v wide) at (put-Writes host t v)
  put_item-Writes (Item.text bs) h = put_string-Writes host bs h
  put_item-Writes (Item.vector t vs) (wide, fits, h) =
      put_vector-Writes host (put host t) _
        (λ v. rw (encode_wide t v wide) at (put-Writes host t v)) vs fits

  pub put_items-Writes :
      (xs : List Item) → All IsSendable xs → Writes (put_items xs) (encode_items xs)
  put_items-Writes [] h = pure-Writes
  put_items-Writes (x ∷ xs) (hx, hs) =
      >>-Writes (put_item x) (put_items xs) _ _ (put_item-Writes x hx) (put_items-Writes xs hs)

module _ {S : Type 0} (host : Host) (extract : ℕ → M S (List ℕ)) where
  abbrev pub get_item : Shape → M S Item
  get_item (Shape.scalar t) = get host extract t >>= λ v. pure (Item.scalar t v)
  get_item Shape.text = get_string host extract >>= λ bs. pure (Item.text bs)
  get_item (Shape.vector t) =
      get_vector host extract (get host extract t) >>= λ vs. pure (Item.vector t vs)

  abbrev pub get_items : List Shape → M S (List Item)
  get_items [] = pure []
  get_items (x ∷ xs) = get_item x >>= λ a. (get_items xs >>= λ l. pure (a ∷ l))

module _ {S : Type 0} (host : Host) (extract : ℕ → M S (List ℕ)) (reader : Reader extract) where
  open reader use {Takes, pure_lem, bind_lem}

  get_item-Takes :
      (x : Item) → IsSendable x → Takes (get_item host extract (shape x)) (encode_item x) x
  get_item-Takes (Item.scalar t v) (wide, h) =
      map-Takes extract reader (get host extract t) _ v _ (get-Takes extract reader host t v wide h)
  get_item-Takes (Item.text bs) h =
      map-Takes extract reader (get_string host extract) _ bs _
        (get_string-Takes extract reader host bs h)
  get_item-Takes (Item.vector t vs) (wide, fits, h) =
      map-Takes extract reader (get_vector host extract (get host extract t)) _ vs _ (
        get_vector-Takes extract reader host (get host extract t) _ _
          (λ v hv. get-Takes extract reader host t v wide hv) vs fits h)

  pub get_items-Takes :
      (xs : List Item)
      → All IsSendable xs
      → Takes (get_items host extract (map shape xs)) (encode_items xs) xs
  get_items-Takes [] h = pure_lem []
  get_items-Takes (x ∷ xs) (hx, hs) =
      bind_lem (get_item host extract (shape x)) _ x (x ∷ xs) (encode_item x) (encode_items xs)
        (get_item-Takes x hx)
        (map-Takes extract reader (get_items host extract (map shape xs)) (λ l. x ∷ l) xs _
          (get_items-Takes xs hs))

-- Any sequence of values that is written to an empty response, each an arithmetic value wider than
-- one byte, a string or a vector of such values, and each within its type's range, is read back
-- value by value from a request that starts with the bytes of the response, whatever bytes follow
-- them; they are left unread. The bytes together are fewer than 2^64.
pub get_items-put_items :
    (host : Host) (xs : List Item) (tail : List ℕ)
    → All IsSendable xs
    → length (encode_items xs) + length tail < 2 ^ 64
    → let (r, s) = put_items host xs (response []) in
      (r ≡ ok tt)
      × (get_items host extract_data (map shape xs) (at [] (s.bytes ++ tail))
          ≡ (ok xs, at s.bytes tail))
get_items-put_items host xs tail h fits =
    rw (put_items-Writes host xs h [] (omega arith))
      (refl, get_items-Takes host extract_data reads xs h [] tail (omega arith))

abbrev pub bool_and_short : Host → M StackRequest (ℕ × ℕ)
bool_and_short host = do
  b ← get host extract_data boolean
  n ← get host extract_data short
  pure (b, n)

abbrev pub put_bool_and_short : Host → ℕ → ℕ → M StackResponse (Unit {0})
put_bool_and_short host v w = put host boolean v >> put host short w

module _ (host : Host) (v w : ℕ) (tail : List ℕ) where
  wrote_bool_and_short :
      put_bool_and_short host v w (response [])
      ≡ (ok tt, response (little_bytes 4 v ++ little_bytes 2 w))
  wrote_bool_and_short =
      >>-Writes (put host boolean v) (put host short w) _ _ (put-Writes host boolean v)
        (put-Writes host short w) []
        (omega (
          arith,
          length-append (little_bytes 4 v) (little_bytes 2 w),
          length-little_bytes 4 v,
          length-little_bytes 2 w,
        ))

  Reads-bool_and_short :
      v ≤ 1 → Reads (bool_and_short host) (little_bytes 1 v ++ little_bytes 2 0) (v, 0)
  Reads-bool_and_short h =
      >>=-Reads (get host extract_data boolean) _ v (v, 0) _ _ (get_bool-Reads host v h)
        (map-Reads (get host extract_data short) (λ n. (v, n)) 0 _
          (get-Reads host short 0 (omega arith) (omega arith)))

  abbrev leftover : List ℕ
  leftover = 0 ∷ (little_bytes 2 w ++ tail)

  read_split :
      v ≤ 1
      → (little_bytes 4 v ++ little_bytes 2 w) ++ tail
        ≡ (little_bytes 1 v ++ little_bytes 2 0) ++ leftover
  read_split h = rw (little_bytes_small v (omega arith)) (simp append_assoc)

  length-leftover : length leftover ≡ 3 + length tail
  length-leftover = omega (arith, length-append (little_bytes 2 w) tail, length-little_bytes 2 w)

  length-read : length (little_bytes 1 v ++ little_bytes 2 0) ≡ 3
  length-read = omega (
    arith,
    length-append (little_bytes 1 v) (little_bytes 2 0),
    length-little_bytes 1 v,
    length-little_bytes 2 0,
  )

-- A `bool` is written in four bytes and read in one, so what follows it is misread: a `bool` and a
-- `short` written to an empty response read back as the `bool` and the `short` 0, whatever the
-- `short` was and whatever fewer than 2^63 bytes follow.
pub bool_then_short :
    (host : Host) (v w : ℕ) (tail : List ℕ)
    → v ≤ 1
    → length tail < 2 ^ 63
    → (bool_and_short host (at [] ((put_bool_and_short host v w (response [])).1.bytes ++ tail))).0
      ≡ ok (v, 0)
bool_then_short host v w tail h fits = rw (wrote_bool_and_short host v w tail) (
    ap (λ l. (bool_and_short host (at [] l)).0) (read_split host v w tail h)
    ∙ ap (λ r. r.0)
        (Reads-bool_and_short host v w tail h [] (leftover host v w tail)
          (omega (arith, length-leftover host v w tail, length-read host v w tail))))
