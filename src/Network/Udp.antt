-- ===== src/Network/Udp.antt =====
-- src/apps/boost_tcp/udp.cpp: the application that receives datagrams. It waits for a datagram
-- without taking it, makes a connection for it, and lets the connection read it.
pub mod Helper
pub mod Pending
pub mod Reachable
pub mod Service
pub mod Datagrams
pub mod Restarts
use cpp_alls.Prelude.{
  ℕ, ◌+◌, List, [], ◌∷◌, ◌++◌, Option, none, some, Bool, true, false, ◌==◌, if◌then◌else◌, M,
  Outcome, ok, throws, undefined, out_of_fuel, Exception, logic_error, raise, pure, lift, required,
  present, ◌>>=◌, ◌>>◌, continue_with,
}
use cpp_alls.Stream.Scalar.{unsigned_int}
use cpp_alls.Stream.Scalar
use cpp_alls.Stream.Request.{StackRequest, get, extract_data}
use cpp_alls.SyncConnection.{overwrite}
use cpp_alls.Slab.{Slab, Pointer, allocate, deallocate}
use cpp_alls.Slab
use cpp_alls.AsyncConnection.{Connection, Handler, fresh, release, async_read, filled}
use cpp_alls.Network.{Completion, success, aborted, failed, Config}

-- An operation under way: the wait for a datagram on a socket with the memory of its handler, or the
-- read of a connection with its handler, its processor, its strand and the bytes that it waits for.
pub data Operation : Type 0 where
  peek : ℕ → Pointer → Operation
  receive : Connection → Handler → Option ℕ → ℕ → Operation

-- A datagram given to a processor, or a line for a logger, which may be null.
pub data Event : Type 0 where
  processed : ℕ → StackRequest → Event
  accept_failed receive_failed : Option ℕ → Completion → Event
  wrong_size : Option ℕ → ℕ → ℕ → Event

-- The members of class udp, and beside them the operations under way, what has been done, the
-- sockets that posted tasks are to shut down and close, and a number that no socket has yet.
pub record Udp : Type 0 where
  pub log : Option ℕ
  pub processor : Option ℕ
  pub io_service : Option ℕ
  pub socket_strand : Option ℕ
  pub socket : Option ℕ
  pub allocator : Slab
  pub pending : List Operation
  pub events : List Event
  pub closing : List ℕ
  pub next_socket : ℕ

abbrev pub create : Udp
create = record {
  log = none;
  processor = none;
  io_service = none;
  socket_strand = none;
  socket = none;
  allocator = Slab.init;
  pending = [];
  events = [];
  closing = [];
  next_socket = 0;
}

-- What the code takes from outside: `::operator new`, the bytes of a handler, whether a connection
-- processor is derived from api::processor, and what the number of bytes that wait on a socket and
-- a call of a processor are or throw, after these events.
pub record Host : Type 0 where
  pub operator_new : ℕ → ℕ
  pub handler_size : ℕ
  pub scalars : Scalar.Host
  pub is_processor : ℕ → Bool
  pub available : ℕ → List Event → Outcome ℕ
  pub process : ℕ → StackRequest → List Event → Outcome (Unit {0})

abbrev pub happened : Event → M Udp (Unit {0})
happened e s = (ok tt, record s { events = s.events ++ (e ∷ []) })

abbrev pub begun : Operation → M Udp (Unit {0})
begun o s = (ok tt, record s { pending = s.pending ++ (o ∷ []) })

-- An operation on `allocator_`.
abbrev pub on_allocator : {A : Type 0} → M Slab A → M Udp A
on_allocator f s = let r = f s.allocator in (r.0, record s { allocator = r.1 })

abbrev pub reset_ptrs_common : Udp → Udp
reset_ptrs_common s = record s {
  log = none;
  processor = none;
  io_service = none;
  socket_strand = none;
  socket = none;
}

-- The task that shuts down and closes the socket is posted.
abbrev pub post_close : ℕ → M Udp (Unit {0})
post_close socket s = (ok tt, record s { closing = s.closing ++ (socket ∷ []) })

-- `stop`, by the socket that there is.
abbrev pub stop_at : Option ℕ → M Udp (Unit {0})
stop_at none s = (ok tt, reset_ptrs_common s)
stop_at (some socket) s =
    (do
      io_service ← required s.io_service
      strand ← required s.socket_strand
      post_close socket
      (λ s. (ok tt, reset_ptrs_common s)))
      s

pub stop : M Udp (Unit {0})
stop s = stop_at s.socket s

module _ (host : Host) where
  unfoldable pub accept : M Udp (Unit {0})
  accept s =
      (do
        socket ← required s.socket
        strand ← required s.socket_strand
        memory ← on_allocator (allocate host.operator_new host.handler_size)
        begun (peek socket memory))
        s

  -- `udp_connection_fast::create`, `available` and `async_read`. The callback is that of the read.
  unfoldable pub connect : ℕ → M Udp (Unit {0})
  connect socket s =
      (do
        io_service ← required s.io_service
        available ← lift (host.available socket s.events)
        strand ← required s.socket_strand
        (λ t.
            let r = async_read host.operator_new host.handler_size (some 0) available fresh in
            continue_with (r.0, t) (λ h. begun (receive r.1 h s.processor available))))
        s

  -- `on_accpet`, with the socket that was waited on.
  unfoldable pub on_accept : ℕ → Completion → M Udp (Unit {0})
  on_accept socket success = connect socket
  on_accept socket aborted = λ s. happened (accept_failed s.log aborted) s
  on_accept socket (failed e) = do (λ s. happened (accept_failed s.log (failed e)) s); accept

  -- `static_cast<udp_connection_fast&>(c).processor()(c.request(), c.response())`
  pub process : Option ℕ → StackRequest → M Udp (Unit {0})
  process none request s = (undefined, s)
  process (some processor) request s =
      if host.is_processor processor
      then (do
        happened (processed processor request)
        lift (host.process processor request s.events))
          s
      else (undefined, s)

  -- The callback of the read, after its `self->accept()`.
  pub received : Option ℕ → ℕ → StackRequest → Completion → M Udp (Unit {0})
  received processor available request success s =
      let r = get host.scalars extract_data unsigned_int request in
      continue_with (r.0, s)
        λ size. if available == size then process processor r.1 else λ s.
          happened (wrong_size s.log available size) s
  received processor available request aborted s = happened (receive_failed s.log aborted) s
  received processor available request (failed e) s = happened (receive_failed s.log (failed e)) s

  -- The end of an operation, with the bytes that a read has received: the memory of the handler is
  -- given back before the handler is run.
  unfoldable pub complete : Operation → Completion → List ℕ → M Udp (Unit {0})
  complete (peek socket memory) e bytes = do
    freed ← on_allocator (deallocate memory)
    on_accept socket e
  complete (receive c h processor available) e bytes =
      let r = release h (filled bytes c) in
      do freed ← lift r.0; accept; received processor available r.1.request e

  -- `conf.listen` is the socket made with its address.
  unfoldable pub start : Config → M Udp (Unit {0})
  start conf = do
    log ← lift conf.logger
    (λ s. (ok tt, record s { log = some log }))
    processor ← lift conf.processor
    (λ s. (ok tt, record s { processor = some processor }))
    (if host.is_processor processor then pure tt else raise logic_error)
    io_service ← lift conf.io_service
    (λ s. (ok tt, record s { io_service = some io_service }))
    lift conf.endpoint
    lift conf.listen
    (λ s. (
      ok tt,
      record s {
        socket = some s.next_socket;
        socket_strand = some s.next_socket;
        next_socket = s.next_socket + 1;
      },
    ))
    lift (if conf.reuse_address then conf.set_reuse_address else ok tt)
    accept

  -- Unlike that of the other servers, it does not stop the server first.
  pub reload : Config → M Udp (Unit {0})
  reload conf s = start conf (reset_ptrs_common s)
