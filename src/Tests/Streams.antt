-- ===== src/Tests/Streams.antt =====
-- Values written and read on a little-endian machine.
use cpp_alls.Prelude.{◌≡◌, List, [], ◌∷◌, ◌++◌, map, ok, arith}
use cpp_alls.Stream.Scalar.{short, int, little_bytes, little_endian}
use cpp_alls.Stream.Response.Encode.{response}
use cpp_alls.Stream.Request.{extract_data}
use cpp_alls.Stream.Request.Decode.{at}
use cpp_alls.Stream.RoundTrip.{
  Item, shape, put_items, get_items, bool_and_short, put_bool_and_short, get_items-put_items,
  bool_then_short,
}

abbrev three_items : List Item
three_items =
    Item.scalar int 1000 ∷ Item.text (104 ∷ 105 ∷ []) ∷ Item.vector short (1 ∷ 2 ∷ []) ∷ []

get_items-put_items_example :
    let (r, s) = put_items little_endian three_items (response []) in
    (r ≡ ok tt)
    × (get_items little_endian extract_data (map shape three_items) (at [] (s.bytes ++ (7 ∷ [])))
        ≡ (ok three_items, at s.bytes (7 ∷ [])))
unfolding little_bytes
get_items-put_items_example =
    get_items-put_items little_endian three_items (7 ∷ [])
      (
        (omega arith, omega arith),
        (omega arith, ((omega arith, omega arith, (omega arith, (omega arith, tt))), tt)),
      )
      (omega arith)

bool_then_short_example :
    (bool_and_short little_endian
      (at [] ((put_bool_and_short little_endian 1 777 (response [])).1.bytes ++ (7 ∷ [])))).0
    ≡ ok (1, 0)
bool_then_short_example = bool_then_short little_endian 1 777 (7 ∷ []) (omega arith) (omega arith)
