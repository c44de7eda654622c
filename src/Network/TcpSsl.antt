-- ===== src/Network/TcpSsl.antt =====
-- src/apps/boost_tcp/tcp_ssl.cpp: the application that accepts SSL connections. It is class tcp with
-- a context, and a handshake between the accept of a connection and its processor.
pub mod Steps
pub mod Kept
pub mod Processors
pub mod Handshakes
use cpp_alls.Prelude.{
  ℕ, ◌+◌, List, [], ◌∷◌, ◌++◌, Option, none, some, Bool, true, false, if◌then◌else◌, M, Outcome, ok,
  throws, undefined, out_of_fuel, pure, lift, required, ◌>>=◌, ◌>>◌, continue_with,
}
use cpp_alls.AsyncConnection.{Connection, Handler, handler, fresh, release}
use cpp_alls.Network.{
  Completion, success, aborted, failed, Config, Accept, Event, served, warned, Host, close,
}

-- An async_handshake under way, with the connection's own processor.
pub record Handshake : Type 0 where
  pub handler : Handler
  pub connection : Connection
  pub processor : Option ℕ
  pub result : Option Completion

pub record TcpSsl : Type 0 where
  pub log : Option ℕ
  pub processor : Option ℕ
  pub io_service : Option ℕ
  pub acceptor : Option ℕ
  pub context : Option ℕ
  pub nodelay : Bool
  pub accepts : List Accept
  pub handshakes : List Handshake
  pub events : List Event
  pub next_acceptor : ℕ

abbrev pub create : TcpSsl
create = record {
  log = none;
  processor = none;
  io_service = none;
  acceptor = none;
  context = none;
  nodelay = false;
  accepts = [];
  handshakes = [];
  events = [];
  next_acceptor = 0;
}

abbrev pub happened : Event → M TcpSsl (Unit {0})
happened e s = (ok tt, record s { events = s.events ++ (e ∷ []) })

abbrev pub reset_ptrs : TcpSsl → TcpSsl
reset_ptrs s = record s {
  acceptor = none;
  log = none;
  processor = none;
  io_service = none;
  context = none;
}

-- `stop`, by the acceptor that there is.
abbrev pub stop_at : Option ℕ → TcpSsl → TcpSsl
stop_at none s = reset_ptrs s
stop_at (some a) s = reset_ptrs (record s { accepts = close a s.accepts })

unfoldable pub stop : TcpSsl → TcpSsl
stop s = stop_at s.acceptor s

module _ (host : Host) where
  -- A handler of the connection, and the connection with the handler's memory taken.
  abbrev pub handled : Connection → Outcome Handler × Connection
  handled c = handler host.operator_new host.handler_size none c

  abbrev pub wait : ℕ → Handler → M TcpSsl (Unit {0})
  wait acceptor h s = (
    ok tt,
    record s {
      accepts =
          s.accepts
          ++ (record {
            acceptor = acceptor;
            handler = h;
            connection = (handled fresh).1;
            processor = s.processor;
            result = none;
          }
              ∷ []);
    },
  )

  -- The connection is made from `*context_`.
  unfoldable pub accept : M TcpSsl (Unit {0})
  accept s =
      (do
        io_service ← required s.io_service
        context ← required s.context
        h ← lift (handled fresh).0
        acceptor ← required s.acceptor
        wait acceptor h)
        s

  abbrev pub shake : Connection → Option ℕ → Handler → M TcpSsl (Unit {0})
  shake c processor h s = (
    ok tt,
    record s {
      handshakes =
          s.handshakes
          ++ (record { handler = h; connection = c; processor = processor; result = none } ∷ []);
    },
  )

  -- `tcp_ssl_connection_fast::start`
  unfoldable pub start_connection : Connection → Option ℕ → M TcpSsl (Unit {0})
  start_connection c processor = do h ← lift (handled c).0; shake (handled c).1 processor h

  -- `tcp_ssl_connection_fast::handle_handshake`; the connection's own `log_` is never set.
  pub handle_handshake : Connection → Option ℕ → Completion → M TcpSsl (Unit {0})
  handle_handshake c processor success s =
      (do p ← required processor; happened (served p c); lift (host.process p c s.events)) s
  handle_handshake c processor aborted s = happened (warned none aborted) s
  handle_handshake c processor (failed e) s = happened (warned none (failed e)) s

  -- `on_accpet`, for the connection with the handler's memory given back, and its processor.
  unfoldable pub on_accept : Connection → Option ℕ → Completion → M TcpSsl (Unit {0})
  on_accept c processor aborted = pure tt
  on_accept c processor success = do
    accept
    (λ s. (host.set_no_delay s.nodelay s.events, s))
    start_connection c processor
  on_accept c processor (failed e) = do accept; (λ s. happened (warned s.log (failed e)) s)

  -- A completed accept and a completed handshake: the memory of the handler is given back first.
  unfoldable pub complete : Accept → Completion → M TcpSsl (Unit {0})
  complete a e s =
      let r = release a.handler a.connection in
      continue_with (r.0, s) (λ freed. on_accept r.1 a.processor e)

  pub complete_handshake : Handshake → Completion → M TcpSsl (Unit {0})
  complete_handshake h e s =
      let r = release h.handler h.connection in
      continue_with (r.0, s) (λ freed. handle_handshake r.1 h.processor e)

  -- `conf.context` is what making the context with its password and its files returns or throws.
  unfoldable pub start : Config → M TcpSsl (Unit {0})
  start conf = do
    log ← lift conf.logger
    (λ s. (ok tt, record s { log = some log }))
    processor ← lift conf.processor
    (λ s. (ok tt, record s { processor = some processor }))
    io_service ← lift conf.io_service
    (λ s. (ok tt, record s { io_service = some io_service }))
    lift conf.endpoint
    lift conf.listen
    (λ s.
        (ok tt, record s { acceptor = some s.next_acceptor; next_acceptor = s.next_acceptor + 1 }))
    lift (if conf.reuse_address then conf.set_reuse_address else ok tt)
    (λ s. (ok tt, record s { nodelay = conf.nodelay; context = some s.next_acceptor }))
    lift conf.context
    accept

  pub reload : Config → M TcpSsl (Unit {0})
  reload conf s = start conf (stop s)
