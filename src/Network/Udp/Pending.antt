-- ===== src/Network/Udp/Pending.antt =====
-- The operations of class udp that are under way, one at a time.
use mathlib.Core.Path.{subst}
use cpp_alls.Prelude.{
  ◌⊎◌, inl, inr, ℕ, ◌<◌, ◌≡◌, refl, ap, sym, ◌∙◌, List, [], ◌∷◌, ◌++◌, Option, none, some, Bool,
  true, false, if◌then◌else◌, ◌==◌, length, M, Outcome, ok, present, continue_with,
  continue_with-keeps,
}
use cpp_alls.Stream.Request.{StackRequest, get, extract_data}
use cpp_alls.Stream.Scalar.{unsigned_int}
use cpp_alls.Slab.{Slab, Pointer, allocate, deallocate}
use cpp_alls.Slab
use cpp_alls.Slab.Arena.{Cell, render}
use cpp_alls.Slab.Lifecycle.{arena}
use cpp_alls.Slab.Given.{allocate-given}
use cpp_alls.AsyncConnection.{Connection, Handler, release, filled}
use cpp_alls.AsyncConnection.Fresh.{four_free, init-arena, sized, async_read-fresh}
use cpp_alls.Network.{Completion, success, aborted, failed}
use cpp_alls.Network.Udp.{
  Udp, Host, Operation, peek, receive, Event, accept_failed, begun, accept, connect, on_accept,
  received, process,
}

-- The members that the handlers use are there, and the processor is derived from api::processor.
abbrev pub IsReady : Host → Udp → Type 0
IsReady host s =
    (i : ℕ) × (p : ℕ) × (n : ℕ) × (k : ℕ) × (s.io_service ≡ some i)
    × (s.processor ≡ some p)
    × (host.is_processor p ≡ true)
    × (s.socket_strand ≡ some n)
    × (s.socket ≡ some k)

abbrev pub IsOff : Udp → Type 0
IsOff s = (s.io_service ≡ none) × (s.socket ≡ none)

-- Giving the memory of an operation's handler back leaves the allocator, or the connection, as new.
abbrev pub Held : Host → Operation → Udp → Type 0
Held host (peek k m) s =
    (ds : List Cell) × (freed : Option ℕ) × (s.allocator ≡ arena ds)
    × (length (render ds) ≡ 4)
    × (deallocate m s.allocator ≡ (ok freed, Slab.init))
Held host (receive c h p n) s =
    (q : ℕ) × (freed : Option ℕ) × (p ≡ some q)
    × (host.is_processor q ≡ true)
    × (s.allocator ≡ Slab.init)
    × ((bytes : List ℕ) → release h (filled bytes c) ≡ (ok freed, filled bytes (sized n)))

pub data Inv (host : Host) (s : Udp) : Type 0 where
  idle : s.pending ≡ [] → s.allocator ≡ Slab.init → Inv host s
  one :
      (o : Operation)
      → s.pending ≡ o ∷ []
      → Held host o s
      → (IsReady host s) ⊎ (IsOff s)
      → Inv host s

pub Held-events :
    (host : Host) (o : Operation) (s : Udp) (events : List Event)
    → Held host o s
    → Held host o (record s { events = events })
Held-events host (peek k m) s events h = h
Held-events host (receive c h p n) s events k = k

pub Inv-events :
    (host : Host) (s : Udp) (events : List Event)
    → Inv host s
    → Inv host (record s { events = events })
Inv-events host s events (idle p a) = idle p a
Inv-events host s events (one o p h (inl r)) = one o p (Held-events host o s events h) (inl r)
Inv-events host s events (one o p h (inr r)) = one o p (Held-events host o s events h) (inr r)

if_keeps : {A : Type 0} (P : A → Type 0) (b : Bool) {x y : A} → P x → P y → P (if b then x else y)
if_keeps P true h k = h
if_keeps P false h k = k

module _ (host : Host) (small : host.handler_size < 1020) where
  -- A wait for a datagram begins, where the members are there.
  pub accept-ok :
      (s : Udp) (cs : List Cell)
      → IsReady host s
      → s.allocator ≡ arena cs
      → length (render cs) ≡ 4
      → (k : ℕ) × (m : Pointer) × (ds : List Cell) × (freed : Option ℕ) × (accept host s
          ≡ (ok tt, record s { allocator = arena ds; pending = s.pending ++ (peek k m ∷ []) }))
        × (length (render ds) ≡ 4)
        × (deallocate m (arena ds) ≡ (ok freed, arena cs))
        × (s.socket ≡ some k)
  unfolding accept
  accept-ok s cs (i, p, n, k, ei, ep, tp, en, ek) e four =
      let (m, ds, freed, four', given, back) =
        allocate-given host.operator_new host.handler_size cs small four in
      (k, m, ds, freed, rw (ek, en, e, given) refl, four', back, ek)

  pub accept-Inv :
      (s : Udp)
      → s.pending ≡ []
      → s.allocator ≡ Slab.init
      → (IsReady host s) ⊎ (IsOff s)
      → Inv host (accept host s).1
  unfolding accept
  accept-Inv s p e (inl ready) =
      let (k, m, ds, freed, done, four, back, _) =
        accept-ok s four_free ready (e ∙ init-arena) refl in
      subst (λ r. Inv host r.1) (sym done)
        (one (peek k m) (ap (λ l. l ++ (peek k m ∷ [])) p)
          (ds, freed, refl, four, back ∙ ap {A = Slab} (λ x. (ok freed, x)) (sym init-arena))
          (inl ready))
  accept-Inv s p e (inr (ei, ek)) = rw ek (idle p e)

  connect-Inv :
      (k : ℕ) (s : Udp)
      → s.pending ≡ []
      → s.allocator ≡ Slab.init
      → (IsReady host s) ⊎ (IsOff s)
      → Inv host (connect host k s).1
  unfolding connect
  connect-Inv k s p e (inr (ei, ek)) = rw ei (idle p e)
  connect-Inv k s p e (inl (i, q, n, l, ei, ep, tp, en, ek)) =
      continue_with-keeps (Inv host) (present s.io_service) s _ (idle p e) λ _.
        continue_with-keeps (Inv host) (host.available k s.events) s _ (idle p e) λ available.
          continue_with-keeps (Inv host) (present s.socket_strand) s _ (idle p e) λ _.
            let (h, c, freed, done, back) =
              async_read-fresh host.operator_new host.handler_size small available in
            subst
              (λ (r : Outcome Handler × Connection).
                Inv host
                  (continue_with (r.0, s) (λ h. begun (receive r.1 h s.processor available))).1)
              (sym done)
              (one (receive c h s.processor available)
                (ap (λ l. l ++ (receive c h s.processor available ∷ [])) p)
                (q, freed, ep, tp, e, back) (inl (i, q, n, l, ei, ep, tp, en, ek)))

  pub on_accept-Inv :
      (k : ℕ) (x : Completion) (s : Udp)
      → s.pending ≡ []
      → s.allocator ≡ Slab.init
      → (IsReady host s) ⊎ (IsOff s)
      → Inv host (on_accept host k x s).1
  unfolding on_accept
  on_accept-Inv k success s p e m = connect-Inv k s p e m
  on_accept-Inv k aborted s p e m = idle p e
  on_accept-Inv k (failed n) s p e m =
      accept-Inv (record s { events = s.events ++ (accept_failed s.log (failed n) ∷ []) }) p e m

  process-Inv :
      (q : Option ℕ) (r : StackRequest) (s : Udp) → Inv host s → Inv host (process host q r s).1
  unfolding process
  process-Inv none r s inv = inv
  process-Inv (some q) r s inv =
      if_keeps (λ (r : Outcome (Unit {0}) × Udp). Inv host r.1) (host.is_processor q)
        (Inv-events host s _ inv) inv

  pub received-Inv :
      (q : Option ℕ) (available : ℕ) (r : StackRequest) (x : Completion) (s : Udp)
      → Inv host s
      → Inv host (received host q available r x s).1
  unfolding received
  received-Inv q available r success s inv =
      continue_with-keeps (Inv host) (get host.scalars extract_data unsigned_int r).0 s _ inv
        λ size.
          if_keeps (λ (f : M Udp (Unit {0})). Inv host (f s).1) (available == size)
            (process-Inv q (get host.scalars extract_data unsigned_int r).1 s inv)
            (Inv-events host s _ inv)
  received-Inv q available r aborted s inv = Inv-events host s _ inv
  received-Inv q available r (failed n) s inv = Inv-events host s _ inv
