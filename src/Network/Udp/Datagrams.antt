-- ===== src/Network/Udp/Datagrams.antt =====
-- What class udp does with the datagrams that come in.
use mathlib.Core.Path.{subst}
use cpp_alls.Prelude.{
  ◌⊎◌, inl, inr, ℕ, ◌+◌, ◌≤◌, ◌<◌, ◌^◌, ◌≡◌, refl, ap, sym, ◌∙◌, List, [], ◌∷◌, ◌++◌, Option, some,
  arith, length, length-append, Outcome, ok, throws, range_error, continue_with,
}
use cpp_alls.Stream.Scalar.{little_bytes, length-little_bytes}
use cpp_alls.Stream.Request.{StackRequest}
use cpp_alls.Stream.Request.Decode.{at}
use cpp_alls.Slab.{Slab, Pointer, deallocate}
use cpp_alls.Slab
use cpp_alls.Slab.Arena.{Cell}
use cpp_alls.Slab.Lifecycle.{arena}
use cpp_alls.AsyncConnection.{Connection, Handler, filled}
use cpp_alls.AsyncConnection.Fresh.{four_free, init-arena, sized}
use cpp_alls.Network.{success}
use cpp_alls.Network.Udp.{
  Udp, Host, peek, receive, Event, processed, connect, on_accept, received, complete,
}
use cpp_alls.Network.Udp.Pending.{Inv, idle, one, accept-ok}
use cpp_alls.Network.Udp.Reachable.{runs, Reachable, next, Reachable-Inv}
use cpp_alls.Network.Udp.Service.{
  taken, ready_of, filled-all, complete-receive, received-processed, too_short, connect-ok,
}

module _ (host : Host) (small : host.handler_size < 1020) where
  -- Whatever starts, stops and completions there have been, each start with nothing under way and
  -- no reload among them: at most one operation is under way, a wait for a datagram or a
  -- connection's read; and all of the server's own allocator is free, unless a wait is under way
  -- and giving its handler's memory back makes all of it free. A handler has fewer than 1020
  -- bytes.
  pub Reachable-single :
      {s : Udp}
      → Reachable host s
      → (length s.pending ≤ 1)
        × ((s.allocator ≡ Slab.init)
            ⊎ ((k : ℕ) × (m : Pointer) × (freed : Option ℕ) × (s.pending ≡ peek k m ∷ [])
                × (deallocate m s.allocator ≡ (ok freed, Slab.init))))
  Reachable-single {s} r = split (Reachable-Inv host small r)
    where
      split :
          Inv host s
          → (length s.pending ≤ 1)
            × ((s.allocator ≡ Slab.init)
                ⊎ ((k : ℕ) × (m : Pointer) × (freed : Option ℕ) × (s.pending ≡ peek k m ∷ [])
                    × (deallocate m s.allocator ≡ (ok freed, Slab.init))))
      split (idle p a) = (omega (arith, ap length p), inl a)
      split (one (peek k m) p (_, freed, _, _, back) mode) =
          (omega (arith, ap length p), inr (k, m, freed, p, back))
      split (one (receive c h q n) p (_, _, _, _, a, _) mode) = (omega (arith, ap length p), inl a)

  -- From every state that is reached without a reload, and without a start while an operation is
  -- under way, with the server's socket there and a wait for a datagram under way: a datagram that
  -- begins with its own size is processed. The run of the wait's handler succeeds and leaves one
  -- operation under way, a connection's read of the whole datagram for the server's processor. The
  -- run of that read's handler with the datagram succeeds too: the processor gets, once, a request of
  -- which the size has been extracted and the body has not, and one operation is under way, a wait
  -- on the server's socket. The socket's available is the size of the datagram, which is less than
  -- 2^32, the processor succeeds, and a handler has fewer than 1020 bytes.
  pub Reachable-processed :
      {s : Udp}
      → Reachable host s
      → (l k : ℕ) (m : Pointer) → s.socket ≡ some l
      → s.pending ≡ peek k m ∷ []
      → (n : ℕ) (body : List ℕ) → n ≡ 4 + length body
      → n < 2 ^ 32
      → ((events : List Event) → host.available k events ≡ ok n)
      → ((p : ℕ) (r : StackRequest) (events : List Event) → host.process p r events ≡ ok tt)
      → (u : Udp) × (t : Udp) × (p : ℕ) × (c : Connection) × (h : Handler) × (m' : Pointer)
        × (complete host (peek k m) success [] (record s { pending = [] }) ≡ (ok tt, u))
        × (u.pending ≡ receive c h (some p) n ∷ [])
        × (complete host
              (receive c h (some p) n)
              success
              (little_bytes 4 n ++ body)
              (record u { pending = [] })
            ≡ (ok tt, t))
        × Reachable host t
        × (s.processor ≡ some p)
        × (t.events ≡ s.events ++ (processed p (at (little_bytes 4 n) body) ∷ []))
        × (t.pending ≡ peek l m' ∷ [])
  unfolding complete on_accept
  Reachable-processed {s} r l k m el ep n body e fits available processes =
      let ((_, freed, _, _, back), mode) =
        taken host s (peek k m) (Reachable-Inv host small r) ep in
      let ready = ready_of host s l mode el in
      let (i, p, d, l', ei, eq, typed, ed, el') = ready in
      let s1 : Udp = record s { pending = []; allocator = Slab.init } in
      let (c, h, freed', connected, back') =
        connect-ok host small k n s1 ready (available s.events) in
      let u : Udp = record s1 { pending = receive c h (some p) n ∷ [] } in
      let first : complete host (peek k m) success [] (record s { pending = [] }) ≡ (ok tt, u) =
        ap
          (λ (r : Outcome (Option ℕ) × Slab).
            continue_with {A = Option ℕ} (r.0, record s { pending = []; allocator = r.1 })
              (λ _. connect host k))
          back
        ∙ connected
        ∙ ap (λ q. (ok tt, record s1 { pending = receive c h q n ∷ [] })) eq in
      let reached : Reachable host u =
        subst (λ q. Reachable host q.1) first (next r (runs s (peek k m) [] [] success [] ep)) in
      let bytes = little_bytes 4 n ++ body in
      let whole : length bytes ≡ n =
        omega (arith, e, length-append (little_bytes 4 n) body, length-little_bytes 4 n) in
      let (j, m', ds, _, accepted, _, _, on_) =
        accept-ok host small s1 four_free ready init-arena refl in
      let same : j ≡ l = cc (sym on_ ∙ el) in
      let v : Udp = record s1 { allocator = arena ds; pending = peek j m' ∷ [] } in
      let t : Udp = record v {
        events = s.events ++ (processed p (at (little_bytes 4 n) body) ∷ []);
      } in
      let second : complete host (receive c h (some p) n) success bytes s1 ≡ (ok tt, t) =
        complete-receive host c h (some p) n success bytes s1 (p, freed', refl, typed, refl, back')
        ∙ ap
            (λ r.
              continue_with r
                (λ _. received host (some p) n (filled bytes (sized n)).request success))
            accepted
        ∙ ap (λ q. received host (some p) n q success v) (filled-all bytes n whole)
        ∙ received-processed host p n body v e fits typed processes in
      (
        u,
        t,
        p,
        c,
        h,
        m',
        first,
        refl,
        second,
        subst (λ q. Reachable host q.1) second
            (next reached (runs u (receive c h (some p) n) [] [] success bytes refl)),
        eq,
        refl,
        ap (λ j. peek j m' ∷ []) same,
      )

  -- A connection's read under way gets the bytes that it waits for: the next wait begins, and then
  -- the bytes are looked at.
  pub Reachable-read :
      {s : Udp}
      → Reachable host s
      → (l : ℕ) (c : Connection) (h : Handler) (q : Option ℕ) (bytes : List ℕ) → s.socket ≡ some l
      → s.pending ≡ receive c h q (length bytes) ∷ []
      → (ds : List Cell) × (j : ℕ) × (m : Pointer) × (complete host
            (receive c h q (length bytes))
            success
            bytes
            (record s { pending = [] })
          ≡ received host q
              (length bytes)
              (at [] bytes)
              success
              (record s { allocator = arena ds; pending = peek j m ∷ [] }))
  Reachable-read {s} r l c h q bytes el ep =
      let n = length bytes in
      let (held, mode) = taken host s (receive c h q n) (Reachable-Inv host small r) ep in
      let (_, _, _, _, a, _) = held in
      let rest : Udp = record s { pending = [] } in
      let (j, m, ds, _, accepted, _, _, _) =
        accept-ok host small rest four_free (ready_of host s l mode el) (a ∙ init-arena) refl in
      let t : Udp = record s { allocator = arena ds; pending = peek j m ∷ [] } in
      (
        ds,
        j,
        m,
        complete-receive host c h q n success bytes rest held
            ∙ ap
                (λ r.
                  continue_with r (λ _. received host q n (filled bytes (sized n)).request success))
                accepted
            ∙ ap (λ r. received host q n r success t) (filled-all bytes n refl),
      )

  -- From every state that is reached without a reload, and without a start while an operation is
  -- under way, with the server's socket there and a connection's read under way that gets a
  -- datagram of fewer than four bytes: the callback throws a range_error out of the handler,
  -- nothing is processed and nothing is logged, and again one operation is under way, a wait. A
  -- handler has fewer than 1020 bytes.
  pub Reachable-short :
      {s : Udp}
      → Reachable host s
      → (l : ℕ) (c : Connection) (h : Handler) (q : Option ℕ) (bytes : List ℕ) → s.socket ≡ some l
      → s.pending ≡ receive c h q (length bytes) ∷ []
      → length bytes < 4
      → (t : Udp) × (j : ℕ) × (m : Pointer) × (complete host
            (receive c h q (length bytes))
            success
            bytes
            (record s { pending = [] })
          ≡ (throws range_error, t))
        × (t.events ≡ s.events)
        × (t.pending ≡ peek j m ∷ [])
  unfolding received
  Reachable-short {s} r l c h q bytes el ep short =
      let (ds, j, m, e) = Reachable-read r l c h q bytes el ep in
      (
        record s { allocator = arena ds; pending = peek j m ∷ [] },
        j,
        m,
        e ∙ rw (too_short host bytes short) refl,
        refl,
        refl,
      )
