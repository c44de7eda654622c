-- ===== src/Tests/Exchanges.antt =====
-- A request and its reply over a stream that takes one byte at a time.
use cpp_alls.Prelude.{
  ℕ, ◌≡◌, refl, some, List, [], ◌∷◌, ◌++◌, take, drop, map, length, ok, ◌>>◌, arith,
}
use cpp_alls.Stream.Scalar.{little_endian, short, little_bytes}
use cpp_alls.Stream.RoundTrip.{Item, shape, encode_items, put_items, get_items}
use cpp_alls.SyncConnection.Transport.{Socket, IsStream}
use cpp_alls.SyncConnection.{on_response}
use cpp_alls.SyncConnection
use cpp_alls.SyncConnection.Raw
use cpp_alls.SyncConnection.Classes.{Resolver}
use cpp_alls.SyncConnection.Classes.Tcp.{raw_connection, raw_write}
use cpp_alls.AsyncConnection.{fresh}
use cpp_alls.AsyncConnection.Fresh.{four_free, init-arena}
use cpp_alls.Exchange.Serving.{serve}
use cpp_alls.Exchange.Tcp.{exchange}

pub record Line : Type 0 where
  pub sent : List ℕ
  pub incoming : List ℕ

abbrev pub bytewise : Socket
bytewise = record {
  State = Line;
  send = λ bs t. (ok 1, record t { sent = t.sent ++ take 1 bs });
  receive = λ size t. (ok (take 1 t.incoming), record t { incoming = drop 1 t.incoming });
  available = λ t. (ok (length t.incoming), t);
  shutdown = λ t. t;
  close = λ t. t;
}

abbrev pub bytewise_stream : IsStream bytewise
bytewise_stream = record {
  sent = λ t. t.sent;
  incoming = λ t. t.incoming;
  send_lem = λ bs t h. (1, _, refl, omega arith, omega arith, refl, refl);
  receive_lem = λ size t h k. (1, _, refl, omega arith, omega arith, omega arith, refl, refl);
}

abbrev local : Resolver Line
local = record {
  resolve = λ address port. ok (1 ∷ []);
  connect_any = λ endpoints t. (ok tt, t);
  set_no_delay = λ t. (ok tt, t);
  handshake = λ t. (ok tt, t);
}

abbrev pub silent : Line
silent = record { sent = []; incoming = [] }

abbrev questions : List Item
questions = Item.scalar short 300 ∷ (Item.text (104 ∷ (105 ∷ [])) ∷ [])

abbrev answers : List Item
answers = Item.text (111 ∷ (107 ∷ [])) ∷ []

abbrev replied : Line
replied = record { sent = encode_items questions; incoming = encode_items answers ++ (9 ∷ []) }

abbrev client : SyncConnection.Connection Line
client = (raw_connection bytewise local "127.0.0.1" "63101" silent).1

connected : raw_connection bytewise local "127.0.0.1" "63101" silent ≡ (ok tt, client)
unfolding raw_connection
connected = refl

exchange_example :
    (d f : SyncConnection.Connection Line) × ((on_response (put_items little_endian questions)
          >> raw_write bytewise)
        client
      ≡ (ok tt, d))
    × (d.socket.sent ≡ client.socket.sent ++ encode_items questions)
    × ((serve little_endian
          (λ n. 4096)
          300
          (encode_items questions)
          (map shape questions)
          answers
          (some 0)
          fresh).0
        ≡ ok (questions, encode_items answers))
    × (get_items little_endian
          (Raw.extract_data bytewise)
          (map shape answers)
          (record d { socket = replied })
        ≡ (ok answers, f))
    × (f.socket.incoming ≡ 9 ∷ [])
unfolding little_bytes
exchange_example =
    exchange bytewise bytewise_stream local little_endian (λ n. 4096) 300 "127.0.0.1" "63101" silent
      client connected questions answers ((omega arith, omega arith), (omega arith, tt))
      (omega arith, tt) (omega arith) (omega arith) fresh four_free (some 0) refl init-arena refl
      (omega arith) replied (9 ∷ []) refl
