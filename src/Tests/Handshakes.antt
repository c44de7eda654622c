-- ===== src/Tests/Handshakes.antt =====
-- A connection of the SSL server whose accept and handshake complete after other starts and a stop.
use cpp_alls.Prelude.{◌≡◌, refl, some, true, [], ◌∷◌, ◌++◌, ok, arith}
use cpp_alls.AsyncConnection.{fresh, handler}
use cpp_alls.Slab.{allocate, allocate_multiple, multiple_from, free_run, blocks_required}
use cpp_alls.Slab
use cpp_alls.Network.{success, Accept, served, Host}
use cpp_alls.Network.Tcp.Overtaken.{working}
use cpp_alls.Network.TcpSsl.{
  TcpSsl, Handshake, create, start, stop, accept, complete, complete_handshake,
}
use cpp_alls.Network.TcpSsl.Processors.{IsOn, accept-processed}

abbrev host : Host
host = record {
  operator_new = λ n. 4096;
  handler_size = 300;
  set_no_delay = λ on events. ok tt;
  process = λ p c events. ok tt;
}

-- A server started with the processor 2, one with the processor 5, and this one stopped.
abbrev first : TcpSsl
first = (start host (working 1 2 3 true true) create).1

abbrev second : TcpSsl
second = (start host (working 4 5 6 true true) create).1

abbrev stopped : TcpSsl
stopped = stop second

first-IsOn : IsOn first
unfolding start accept handler allocate allocate_multiple multiple_from free_run blocks_required
    Slab.init
first-IsOn = record {
  io_service = 3;
  context = 1;
  acceptor = 0;
  has_io_service = refl;
  has_context = refl;
  has_acceptor = refl;
}

second-IsOn : IsOn second
unfolding start accept handler allocate allocate_multiple multiple_from free_run blocks_required
    Slab.init
second-IsOn = record {
  io_service = 6;
  context = 1;
  acceptor = 0;
  has_io_service = refl;
  has_context = refl;
  has_acceptor = refl;
}

first_processor : first.processor ≡ some 2
unfolding start accept handler allocate allocate_multiple multiple_from free_run blocks_required
    Slab.init
first_processor = refl

accept-processed_example :
    (a : Accept) × (b : Accept) × (h : Handshake) × (accept host first
      ≡ (ok tt, record first { accepts = first.accepts ++ (a ∷ []) }))
    × (complete host (record a { result = some success }) success second ≡ (
      ok tt,
      record second {
        accepts = second.accepts ++ (b ∷ []);
        handshakes = second.handshakes ++ (h ∷ []);
      },
    ))
    × (complete_handshake host (record h { result = some success }) success stopped
        ≡ (ok tt, record stopped { events = stopped.events ++ (served 2 fresh ∷ []) }))
accept-processed_example =
    accept-processed host (omega arith) first 2 first_processor first-IsOn second second-IsOn
      (λ on events. refl) stopped
