-- ===== src/Network/Tcp.antt =====
-- src/apps/boost_tcp/tcp.cpp: the application that accepts TCP connections.
pub mod Invariant
pub mod Loop
pub mod Reachable
pub mod Service
pub mod Overtaken
use cpp_alls.Prelude.{
  ℕ, ◌+◌, List, [], ◌∷◌, ◌++◌, Option, none, some, Bool, true, false, if◌then◌else◌, M, Outcome, ok,
  throws, undefined, out_of_fuel, pure, lift, required, ◌>>=◌, ◌>>◌, continue_with,
}
use cpp_alls.AsyncConnection.{Connection, Handler, handler, fresh, release}
use cpp_alls.Network.{
  Completion, success, aborted, failed, Config, Accept, Event, served, warned, Host, close,
}

-- The members of class tcp, and beside them the accepts under way on any acceptor, what has been
-- done, and a number that no acceptor has yet.
pub record Tcp : Type 0 where
  pub log : Option ℕ
  pub processor : Option ℕ
  pub io_service : Option ℕ
  pub acceptor : Option ℕ
  pub nodelay : Bool
  pub accepts : List Accept
  pub events : List Event
  pub next_acceptor : ℕ

abbrev pub create : Tcp
create = record {
  log = none;
  processor = none;
  io_service = none;
  acceptor = none;
  nodelay = false;
  accepts = [];
  events = [];
  next_acceptor = 0;
}

abbrev pub happened : Event → M Tcp (Unit {0})
happened e s = (ok tt, record s { events = s.events ++ (e ∷ []) })

-- The objects die with the last handler that holds them; the members are null.
abbrev pub reset_ptrs : Tcp → Tcp
reset_ptrs s = record s { acceptor = none; log = none; processor = none; io_service = none }

-- `stop`, by the acceptor that there is.
abbrev pub stop_at : Option ℕ → Tcp → Tcp
stop_at none s = reset_ptrs s
stop_at (some a) s = reset_ptrs (record s { accepts = close a s.accepts })

pub stop : Tcp → Tcp
stop s = stop_at s.acceptor s

module _ (host : Host) where
  -- `tcp_connection_fast::create` with the memory of the accept's handler, from its allocator.
  unfoldable pub new_connection : Outcome Handler × Connection
  new_connection = handler host.operator_new host.handler_size none fresh

  abbrev pub wait : ℕ → Handler → M Tcp (Unit {0})
  wait acceptor h s = (
    ok tt,
    record s {
      accepts =
          s.accepts
          ++ (record {
            acceptor = acceptor;
            handler = h;
            connection = new_connection.1;
            processor = s.processor;
            result = none;
          }
              ∷ []);
    },
  )

  unfoldable pub accept : M Tcp (Unit {0})
  accept s =
      (do
        io_service ← required s.io_service
        h ← lift new_connection.0
        acceptor ← required s.acceptor
        wait acceptor h)
        s

  -- The end of `on_accpet` for a connection that has come in.
  pub serve : Connection → M Tcp (Unit {0})
  serve c s =
      (do
        lift (host.set_no_delay s.nodelay s.events)
        processor ← required s.processor
        happened (served processor c)
        lift (host.process processor c s.events))
        s

  -- `on_accpet`, for the connection with the handler's memory given back.
  pub on_accept : Connection → Completion → M Tcp (Unit {0})
  on_accept c aborted = pure tt
  on_accept c success = do accept; serve c
  on_accept c (failed e) = do accept; (λ s. happened (warned s.log (failed e)) s)

  -- A completed accept: its handler's memory is given back, and then `on_accpet` is called.
  pub complete : Accept → Completion → M Tcp (Unit {0})
  complete a e s =
      let r = release a.handler a.connection in continue_with (r.0, s) (λ freed. on_accept r.1 e)

  unfoldable pub start : Config → M Tcp (Unit {0})
  start conf = do
    log ← lift conf.logger
    (λ s. (ok tt, record s { log = some log }))
    processor ← lift conf.processor
    (λ s. (ok tt, record s { processor = some processor }))
    io_service ← lift conf.io_service
    (λ s. (ok tt, record s { io_service = some io_service }))
    lift conf.endpoint
    lift conf.listen
    (λ s.
        (ok tt, record s { acceptor = some s.next_acceptor; next_acceptor = s.next_acceptor + 1 }))
    lift (if conf.reuse_address then conf.set_reuse_address else ok tt)
    (λ s. (ok tt, record s { nodelay = conf.nodelay }))
    accept

  -- `application::reload`
  pub reload : Config → M Tcp (Unit {0})
  reload conf s = start conf (stop s)
