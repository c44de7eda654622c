-- ===== src/Network/TcpSsl/Kept.antt =====
-- What class tcp_ssl keeps for its handlers, through each of its operations.
use mathlib.Core.Path.{subst}
use cpp_alls.Prelude.{
  ℕ, ◌<◌, ◌≡◌, refl, ap, sym, ◌∙◌, List, [], ◌∷◌, ◌++◌, Option, none, some, All, Outcome, ok,
  present, continue_with, continue_with-keeps,
}
use cpp_alls.AsyncConnection.{Connection, Handler, fresh, release}
use cpp_alls.AsyncConnection.Fresh.{handler-fresh}
use cpp_alls.Network.{Completion, success, aborted, failed, Accept, Event, warned, Host, close}
use cpp_alls.Prelude.Elements.{All-append}
use cpp_alls.Network.TcpSsl.{
  TcpSsl, Handshake, stop_at, handled, wait, shake, accept, start_connection, handle_handshake,
  on_accept, complete, complete_handshake,
}

-- Its processor is there, and giving the handler's memory back leaves a connection as new.
abbrev IsKept : Option ℕ → Handler → Connection → Type 0
IsKept processor h c =
    (p : ℕ) × (freed : Option ℕ) × (processor ≡ some p) × (release h c ≡ (ok freed, fresh))

abbrev pub KeepsAccept : Accept → Type 0
KeepsAccept a = IsKept a.processor a.handler a.connection

abbrev pub KeepsHandshake : Handshake → Type 0
KeepsHandshake h = IsKept h.processor h.handler h.connection

pub record Inv (s : TcpSsl) : Type 0 where
  pub set : (a : ℕ) → s.acceptor ≡ some a → (p : ℕ) × (s.processor ≡ some p)
  pub accepts : All KeepsAccept s.accepts
  pub handshakes : All KeepsHandshake s.handshakes

close-kept : (n : ℕ) (xs : List Accept) → All KeepsAccept xs → All KeepsAccept (close n xs)
close-kept n [] k = tt
close-kept n (x ∷ xs) (k, ks) = (k, close-kept n xs ks)

pub stopped-Inv : (acceptor : Option ℕ) (s : TcpSsl) → Inv s → Inv (stop_at acceptor s)
stopped-Inv none s inv = record {
  set = λ a e. cc e;
  accepts = inv.accepts;
  handshakes = inv.handshakes;
}
stopped-Inv (some n) s inv = record {
  set = λ a e. cc e;
  accepts = close-kept n s.accepts inv.accepts;
  handshakes = inv.handshakes;
}

pub events-Inv : (s : TcpSsl) (events : List Event) → Inv s → Inv (record s { events = events })
events-Inv s events inv = record {
  set = inv.set;
  accepts = inv.accepts;
  handshakes = inv.handshakes;
}

module _ (host : Host) (small : host.handler_size < 1020) where
  -- The handler of a connection as new is made, and keeps what it must.
  pub made :
      (h : Handler) × ((handled host fresh).0 ≡ ok h)
      × (freed : Option ℕ) × (release h (handled host fresh).1 ≡ (ok freed, fresh))
  made =
      let (h, c, freed, m, r) = handler-fresh host.operator_new host.handler_size small in
      (
        h,
        ap (λ (q : Outcome Handler × Connection). q.0) m,
        freed,
        ap (λ (q : Outcome Handler × Connection). release h q.1) m ∙ r,
      )

  pub accept-Inv : (s : TcpSsl) → Inv s → Inv (accept host s).1
  unfolding accept
  accept-Inv s inv =
      let (h, m, freed, r) = made in
      continue_with-keeps Inv (present s.io_service) s _ inv λ _.
        continue_with-keeps Inv (present s.context) s _ inv λ _.
          subst
            (λ o.
              Inv
                (continue_with {A = Handler} {B = Unit {0}} (o, s)
                  (λ h t. continue_with (present s.acceptor, t) (λ n. wait host n h))).1)
            (sym m) (last s.acceptor refl)
    where
      last :
          (o : Option ℕ)
          → s.acceptor ≡ o
          → Inv (continue_with (present o, s) (λ n. wait host n made.0)).1
      last none e = inv
      last (some n) e =
          let (h, m, freed, r) = made in
          let (p, ep) = inv.set n e in
          record {
            set = inv.set;
            accepts = All-append KeepsAccept s.accepts _ inv.accepts ((p, freed, ep, r), tt);
            handshakes = inv.handshakes;
          }

  start_connection-Inv :
      (processor : Option ℕ) (p : ℕ) (s : TcpSsl)
      → processor ≡ some p
      → Inv s
      → Inv (start_connection host fresh processor s).1
  unfolding start_connection
  start_connection-Inv processor p s e inv =
      let (h, m, freed, r) = made in
      subst (λ o. Inv (continue_with (o, s) (λ h. shake host (handled host fresh).1 processor h)).1)
        (sym m)
        (record {
          set = inv.set;
          accepts = inv.accepts;
          handshakes =
              All-append KeepsHandshake s.handshakes _ inv.handshakes ((p, freed, e, r), tt);
        })

  on_accept-Inv :
      (processor : Option ℕ) (p : ℕ) (x : Completion) (s : TcpSsl)
      → processor ≡ some p
      → Inv s
      → Inv (on_accept host fresh processor x s).1
  unfolding on_accept
  on_accept-Inv processor p aborted s e inv = inv
  on_accept-Inv processor p success s e inv =
      let t = (accept host s).1 in
      continue_with-keeps Inv (accept host s).0 t _ (accept-Inv s inv) λ _.
        continue_with-keeps Inv (host.set_no_delay t.nodelay t.events) t _ (accept-Inv s inv)
          λ _. start_connection-Inv processor p t e (accept-Inv s inv)
  on_accept-Inv processor p (failed n) s e inv =
      let t = (accept host s).1 in
      continue_with-keeps Inv (accept host s).0 t _ (accept-Inv s inv)
        λ _. events-Inv t (t.events ++ (warned t.log (failed n) ∷ [])) (accept-Inv s inv)

  pub handle_handshake-Inv :
      (processor : Option ℕ) (x : Completion) (s : TcpSsl)
      → Inv s
      → Inv (handle_handshake host fresh processor x s).1
  unfolding handle_handshake
  handle_handshake-Inv processor aborted s inv = events-Inv s _ inv
  handle_handshake-Inv processor success s inv =
      continue_with-keeps Inv (present processor) s _ inv (λ p. events-Inv s _ inv)
  handle_handshake-Inv processor (failed n) s inv = events-Inv s _ inv

  pub complete-Inv :
      (a : Accept) (x : Completion) (s : TcpSsl)
      → KeepsAccept a
      → Inv s
      → Inv (complete host a x s).1
  unfolding complete
  complete-Inv a x s (p, freed, e, r) inv =
      subst
        (λ (q : Outcome (Option ℕ) × Connection).
          Inv (continue_with (q.0, s) (λ _. on_accept host q.1 a.processor x)).1)
        (sym r) (on_accept-Inv a.processor p x s e inv)

  pub complete_handshake-handle :
      (h : Handshake) (x : Completion) (s : TcpSsl)
      → KeepsHandshake h
      → complete_handshake host h x s ≡ handle_handshake host fresh h.processor x s
  unfolding complete_handshake
  complete_handshake-handle h x s (p, freed, e, r) =
      ap
        (λ (q : Outcome (Option ℕ) × Connection).
          continue_with (q.0, s) (λ _. handle_handshake host q.1 h.processor x))
        r
