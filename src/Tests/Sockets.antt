-- ===== src/Tests/Sockets.antt =====
-- Framed reads of a plain socket, and servers whose clients are accepted on concrete states.
use cpp_alls.Prelude.{
  ℕ, ◌≤◌, ◌≢◌, ◌≡◌, refl, some, none, true, false, List, [], ◌∷◌, ◌++◌, take, drop, length, ok,
  undefined, out_of_fuel, arith,
}
use cpp_alls.Stream.Scalar.{little_endian, little_bytes}
use cpp_alls.Stream.Request.{StackRequest}
use cpp_alls.Stream.Request.Decode.{at}
use cpp_alls.SyncConnection.Transport.{Socket, IsStream}
use cpp_alls.SyncConnection.Framed.{read}
use cpp_alls.SyncConnection.Raw.Failure.{quiet}
use cpp_alls.SyncConnection.Framed.Starved.{read_starved}
use cpp_alls.SyncConnection.Framed.Message.{read_message, framed, buffered}
use cpp_alls.AsyncConnection.{fresh, handler}
use cpp_alls.Slab.{allocate, allocate_multiple, multiple_from, free_run, blocks_required, storage}
use cpp_alls.Slab
use cpp_alls.Network.{success, Accept, served, Host}
use cpp_alls.Network.Accepts.{count_live}
use cpp_alls.Network.Tcp.{Tcp, create, start, stop, complete, accept, reload, new_connection}
use cpp_alls.Network.Tcp.Reachable.{Reachable, begin, next, begins, completes}
use cpp_alls.Network.Tcp.Service.{IsDefined, Reachable-complete, Reachable-served}
use cpp_alls.Network.Tcp.Overtaken.{working, stop-overtakes, reload-overtakes}

abbrev idle : Socket
idle = record {
  State = Unit {0};
  send = λ bs t. (ok (length bs), t);
  receive = λ size t. (ok [], t);
  available = λ t. (ok 0, t);
  shutdown = λ t. t;
  close = λ t. t;
}

abbrev used_up : StackRequest
used_up = record { bytes = []; data_extracted = 0 }

read_starved_example : (read idle little_endian false 50 4 (quiet idle used_up tt)).0 ≡ out_of_fuel
read_starved_example = read_starved idle little_endian (λ t. refl) 50 4 used_up tt refl

record Line : Type 0 where
  sent : List ℕ
  incoming : List ℕ

abbrev whole : Socket
whole = record {
  State = Line;
  send = λ bs t. (ok 1, record t { sent = t.sent ++ take 1 bs });
  receive = λ size t. (ok (take 1 t.incoming), record t { incoming = drop 1 t.incoming });
  available = λ t. (ok (length t.incoming), t);
  shutdown = λ t. t;
  close = λ t. t;
}

abbrev whole_stream : IsStream whole
whole_stream = record {
  sent = λ t. t.sent;
  incoming = λ t. t.incoming;
  send_lem = λ bs t h. (1, _, refl, omega arith, omega arith, refl, refl);
  receive_lem = λ size t h k. (1, _, refl, omega arith, omega arith, omega arith, refl, refl);
}

abbrev message : Line
message = record { sent = []; incoming = framed 6 (7 ∷ 8 ∷ []) }

read_message_example :
    (u : Line) × (read whole little_endian false 2 1 (quiet whole used_up message)
      ≡ (ok tt, buffered whole little_endian (at (little_bytes 4 6) (7 ∷ 8 ∷ [])) u))
    × (u.incoming ≡ [])
    × (u.sent ≡ [])
unfolding little_bytes
read_message_example =
    read_message whole little_endian whole_stream 1 1 6 (7 ∷ 8 ∷ []) used_up message refl refl
      (omega arith) (omega arith) refl

abbrev host : Host
host = record {
  operator_new = λ n. 4096;
  handler_size = 300;
  set_no_delay = λ on events. ok tt;
  process = λ p c events. ok tt;
}

abbrev waiting : Tcp
waiting = (start host (working 1 2 3 true true) create).1

abbrev one : Accept
one = record {
  acceptor = 0;
  handler = record { memory = cpp_alls.Slab.storage 0; callback = none };
  connection = (new_connection host).1;
  processor = some 2;
  result = none;
}

waiting_one : waiting.accepts ≡ [] ++ (one ∷ [])
unfolding start accept new_connection handler allocate allocate_multiple multiple_from free_run
    blocks_required Slab.init
waiting_one = refl

waiting-Reachable : Reachable host waiting
waiting-Reachable = next begin (begins (working 1 2 3 true true) create refl)

abbrev here : Accept
here = record one { result = some success }

abbrev arrived : Tcp
arrived = record waiting { accepts = here ∷ [] }

arrived-Reachable : Reachable host arrived
arrived-Reachable =
    next waiting-Reachable (completes waiting one [] [] success waiting_one refl refl)

defined : IsDefined host
defined = record { set_no_delay = λ on events e. cc e; process = λ p c events e. cc e }

Reachable-complete_example :
    (1 ≤ 1) × ((complete host here success (record arrived { accepts = [] })).0 ≢ undefined)
Reachable-complete_example =
    Reachable-complete host (omega arith) arrived-Reachable defined here [] [] success refl refl

Reachable-served_example :
    (t : Tcp) × (p : ℕ) × (b : Accept) × (complete host here success
        (record waiting { accepts = [] })
      ≡ (ok tt, t))
    × Reachable host t
    × (waiting.processor ≡ some p)
    × (t.events ≡ waiting.events ++ (served p fresh ∷ []))
    × (t.accepts ≡ b ∷ [])
    × (waiting.acceptor ≡ some b.acceptor)
    × (b.result ≡ none)
    × (count_live t.accepts ≡ 1)
Reachable-served_example =
    Reachable-served host (omega arith) waiting-Reachable (λ on events. refl) (λ p c events. refl)
      one [] [] waiting_one refl

stop-overtakes_example :
    (b : List Accept) × (c : List Accept) × ((stop arrived).accepts ≡ b ++ (here ∷ c))
    × ((complete host here success (record (stop arrived) { accepts = b ++ c })).0 ≡ undefined)
stop-overtakes_example =
    stop-overtakes host (omega arith) arrived arrived-Reachable here [] [] success refl refl refl

reload-overtakes_example :
    (t : Tcp) × (b : List Accept) × (c : List Accept) × (reload host
        (working 4 5 6 true false)
        arrived
      ≡ (ok tt, t))
    × (t.accepts ≡ b ++ (here ∷ c))
    × (count_live (complete host here success (record t { accepts = b ++ c })).1.accepts ≡ 2)
reload-overtakes_example =
    reload-overtakes host (omega arith) arrived arrived-Reachable here [] [] success refl refl refl
      4 5 6 true false
