-- ===== src/Exchange/Serving.antt =====
-- The callback of a server's connection that reads what it has received and starts an answer.
use mathlib.Core.List.{append-nil}
use cpp_alls.Prelude.{
  ℕ, ◌^◌, ◌<◌, ◌≡◌, refl, sym, ap, ◌∙◌, List, [], map, All, Option, none, some, arith, length, M,
  pure, ok, ◌>>=◌, ◌>>◌,
}
use cpp_alls.Stream.Scalar.{Host}
use cpp_alls.Stream.Response.{StackResponse}
use cpp_alls.Stream.Response.Encode.{response}
use cpp_alls.Stream.Request.{extract_data}
use cpp_alls.Stream.Request.Decode.{at, reads}
use cpp_alls.Stream.RoundTrip.{
  Item, Shape, shape, IsSendable, encode_items, put_items, get_items, put_items-Writes,
  get_items-Takes,
}
use cpp_alls.Slab.Arena.{Cell, render}
use cpp_alls.Slab.Lifecycle.{arena, deleted}
use cpp_alls.Slab.Given.{allocate-given, deleted-ok}
use cpp_alls.AsyncConnection
use cpp_alls.AsyncConnection.{
  Category, system, Code, Connection, Handler, call, handler, async_write,
}
use cpp_alls.AsyncConnection.Reading.{read_through, read_through-done, holding}

called :
    (callback : Option ℕ) (error : Code Category) (c : Connection)
    → ((call callback error c).request ≡ c.request)
      × ((call callback error c).response ≡ c.response)
      × ((call callback error c).allocator ≡ c.allocator)
called none error c = (refl, refl, refl)
called (some n) error c = (refl, refl, refl)

module _ (operator_new : ℕ → ℕ) (size : ℕ) (small : size < 1020) where
  async_write-given :
      (callback : Option ℕ) (c : Connection) (cs : List Cell)
      → c.allocator ≡ arena cs
      → length (render cs) ≡ 4
      → (h : Handler) × (d : Connection) × (async_write operator_new size callback c
          ≡ (ok (c.response.bytes, h), d))
  unfolding async_write handler
  async_write-given callback c cs e four =
      let (p, ds, _, _, given, _) = allocate-given operator_new size cs small four in
      (
        record { memory = p; callback = callback },
        record c { allocator = arena ds },
        rw (e, given) refl,
      )

abbrev success : Code Category
success = record { value = 0; category = system }

module _ (host : Host) (operator_new : ℕ → ℕ) (handler_size : ℕ) where
  -- A callback of a server's connection that reads values of these shapes and writes others.
  abbrev pub handle : List Shape → List Item → Option ℕ → M Connection (List Item × List ℕ)
  handle shapes ys callback = do
    xs ← AsyncConnection.on_request (get_items host extract_data shapes)
    AsyncConnection.on_response (put_items host ys)
    w ← async_write operator_new handler_size callback
    pure (xs, w.0)

  -- The connection of a server receives these bytes, and its callback is run.
  abbrev pub serve : List ℕ → List Shape → List Item → Option ℕ → M Connection (List Item × List ℕ)
  serve received shapes ys callback =
      read_through operator_new handler_size callback success received >>= λ _.
      handle shapes ys callback

  handle-answers :
      (xs ys : List Item) (callback : Option ℕ) (s : Connection) (cs : List Cell)
      → All IsSendable xs
      → All IsSendable ys
      → length (encode_items xs) < 2 ^ 32
      → length (encode_items ys) < 2 ^ 32
      → handler_size < 1020
      → s.request ≡ at [] (encode_items xs)
      → s.response.bytes ≡ []
      → s.allocator ≡ arena cs
      → length (render cs) ≡ 4
      → (handle (map shape xs) ys callback s).0 ≡ ok (xs, encode_items ys)
  handle-answers xs ys callback s cs hx hy fx fy small er empty ea four =
      let got : get_items host extract_data (map shape xs) s.request
          ≡ (ok xs, at (encode_items xs) []) =
        ap (λ r. get_items host extract_data (map shape xs) r)
          (er ∙ ap (λ l. at [] l) (sym (append-nil (encode_items xs))))
        ∙ get_items-Takes host extract_data reads xs hx [] [] (omega (arith, fx)) in
      let wrote : put_items host ys s.response ≡ (ok tt, response (encode_items ys)) =
        ap (λ l. put_items host ys (response l)) empty
        ∙ put_items-Writes host ys hy [] (omega (arith, fy)) in
      let ready : Connection = record s {
        request = at (encode_items xs) [];
        response = response (encode_items ys);
      } in
      let (h, d, sent) =
        async_write-given operator_new handler_size small callback ready cs ea four in
      rw (got, wrote, sent) refl

  pub served :
      (xs ys : List Item) (s : Connection) (cs : List Cell) (callback : Option ℕ)
      → All IsSendable xs
      → All IsSendable ys
      → length (encode_items xs) < 2 ^ 32
      → length (encode_items ys) < 2 ^ 32
      → handler_size < 1020
      → s.response.bytes ≡ []
      → s.allocator ≡ arena cs
      → length (render cs) ≡ 4
      → (serve (encode_items xs) (map shape xs) ys callback s).0 ≡ ok (xs, encode_items ys)
  served xs ys s cs callback hx hy fx fy small empty ea four =
      let (p, ds, freed, _, given, _) = allocate-given operator_new handler_size cs small four in
      let (_, back) = deleted-ok p in
      let whole =
        read_through-done operator_new handler_size callback success (encode_items xs) s cs small
          four ea
        ∙ ap (λ r. (deleted (r.0), call callback success (holding (encode_items xs) s))) given
        ∙ ap (λ r. (r, call callback success (holding (encode_items xs) s))) back in
      let (er, es, el) = called callback success (holding (encode_items xs) s) in
      rw whole (
        handle-answers xs ys callback _ cs hx hy fx fy small er
          (ap (λ (r : StackResponse). r.bytes) es ∙ empty) (el ∙ ea) four)
