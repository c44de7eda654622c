-- ===== src/Network/Udp/Restarts.antt =====
-- What a stop and a reload of class udp do while an operation is under way.
use cpp_alls.Prelude.{
  ◌++◌, ℕ, ◌+◌, ◌<◌, ◌≡◌, refl, ap, ◌∙◌, List, [], ◌∷◌, ◌++◌, Option, none, some, Bool, true, false,
  length, ok, undefined, continue_with,
}
use cpp_alls.Slab.{Pointer}
use cpp_alls.Slab.Arena.{Cell, render}
use cpp_alls.Slab.Lifecycle.{arena}
use cpp_alls.AsyncConnection.{Connection, Handler, filled}
use cpp_alls.AsyncConnection.Fresh.{four_free, init-arena, sized}
use cpp_alls.Network.{Completion, Config}
use cpp_alls.Network.Udp.{
  Udp, Host, Operation, peek, receive, accept, start, reload, stop, reset_ptrs_common, received,
  complete,
}
use cpp_alls.Network.Udp.Pending.{IsReady, Held, accept-ok}
use cpp_alls.Network.Udp.Reachable.{Reachable, Reachable-Inv}
use cpp_alls.Network.Udp.Reachable.{Held-reset}
use cpp_alls.Network.Udp.Service.{ready_of, taken, complete-receive}

-- A configuration with which `start` succeeds.
abbrev pub working : ℕ → ℕ → ℕ → Bool → Config
working logger processor io_service reuse_address = record {
  logger = ok logger;
  processor = ok processor;
  io_service = ok io_service;
  endpoint = ok tt;
  listen = ok tt;
  reuse_address = reuse_address;
  set_reuse_address = ok tt;
  nodelay = false;
  context = ok tt;
}

module _ (host : Host) where
  accept-undefined : (s : Udp) → s.socket ≡ none → accept host s ≡ (undefined, s)
  unfolding accept
  accept-undefined s e = rw e refl

  -- A server whose socket is there is stopped without a fault.
  stop-ok :
      (s : Udp) (k : ℕ)
      → IsReady host s
      → s.socket ≡ some k
      → stop s ≡ (ok tt, reset_ptrs_common (record s { closing = s.closing ++ (k ∷ []) }))
  unfolding stop
  stop-ok s k (i, p, n, l, ei, ep, tp, en, el) e = rw (e, ei, en) refl

  -- The members after `start` has set them.
  abbrev members : ℕ → ℕ → ℕ → Udp → Udp
  members log processor io_service s = record s {
    log = some log;
    processor = some processor;
    io_service = some io_service;
    socket_strand = some s.next_socket;
    socket = some s.next_socket;
    next_socket = s.next_socket + 1;
  }

  start-members :
      (l p i : ℕ) (reuse : Bool) (s : Udp)
      → host.is_processor p ≡ true
      → start host (working l p i reuse) s ≡ accept host (members l p i s)
  unfolding start
  start-members l p i true s typed = rw typed refl
  start-members l p i false s typed = rw typed refl

module _ (host : Host) (small : host.handler_size < 1020) where
  -- In every state that is reached without a reload, and without a start while an operation is
  -- under way, with the server's socket there and a connection's read under way: a stop succeeds
  -- and has the socket closed, the read stays under way, and in whatever way it ends its handler
  -- uses a null pointer, so that its behaviour is undefined. A handler has fewer than 1020 bytes.
  pub Reachable-stop_receiving :
      {s : Udp}
      → Reachable host s
      → (k : ℕ) (c : Connection) (h : Handler) (q : Option ℕ) (n : ℕ) → s.socket ≡ some k
      → s.pending ≡ receive c h q n ∷ []
      → (x : Completion) (bytes : List ℕ)
      → (t : Udp) × (stop s ≡ (ok tt, t))
        × (t.closing ≡ s.closing ++ (k ∷ []))
        × (t.pending ≡ receive c h q n ∷ [])
        × ((complete host (receive c h q n) x bytes (record t { pending = [] })).0 ≡ undefined)
  Reachable-stop_receiving {s} r k c h q n there e x bytes =
      let (held, mode) = taken host s (receive c h q n) (Reachable-Inv host small r) e in
      let t : Udp = reset_ptrs_common (record s { closing = s.closing ++ (k ∷ []) }) in
      let off : Udp = record t { pending = [] } in
      (
        t,
        stop-ok host s k (ready_of host s k mode there) there,
        refl,
        e,
        ap (λ q. q.0)
              (complete-receive host c h q n x bytes off
                (Held-reset host (receive c h q n) s (s.closing ++ (k ∷ [])) held))
            ∙ ap
                (λ r.
                  (continue_with r (λ _. received host q n (filled bytes (sized n)).request x)).0)
                (accept-undefined host off refl),
      )

  -- In every state that is reached without a reload, and without a start while an operation is
  -- under way: a reload while one is under way, on a configuration whose members are there and whose
  -- socket can be made, succeeds, leaves that operation under way, and begins a wait for a datagram
  -- beside it, on the new socket. A handler has fewer than 1020 bytes.
  pub Reachable-reload :
      {s : Udp}
      → Reachable host s
      → (o : Operation) → s.pending ≡ o ∷ []
      → (l p i : ℕ) (reuse : Bool) → host.is_processor p ≡ true
      → (t : Udp) × (k : ℕ) × (m : Pointer) × (reload host (working l p i reuse) s ≡ (ok tt, t))
        × (t.socket ≡ some k)
        × (t.pending ≡ o ∷ (peek k m ∷ []))
  unfolding reload
  Reachable-reload {s} r o e l p i reuse typed =
      let t0 : Udp = members host l p i (reset_ptrs_common s) in
      let (ds, a, four) = cells o (taken host s o (Reachable-Inv host small r) e).0 in
      let (k, m, es, _, accepted, _, _, there) =
        accept-ok host small t0 ds
          (i, p, s.next_socket, s.next_socket, refl, refl, typed, refl, refl) a four in
      (
        record t0 { allocator = arena es; pending = t0.pending ++ (peek k m ∷ []) },
        k,
        m,
        start-members host l p i reuse (reset_ptrs_common s) typed ∙ accepted,
        there,
        ap (λ l. l ++ (peek k m ∷ [])) e,
      )
    where
      cells :
          (o : Operation)
          → Held host o s
          → (ds : List Cell) × (s.allocator ≡ arena ds) × (length (render ds) ≡ 4)
      cells (peek k m) (ds, _, a, four, _) = (ds, a, four)
      cells (receive c h q n) (_, _, _, _, a, _) = (four_free, a ∙ init-arena, refl)
