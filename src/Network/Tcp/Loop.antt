-- ===== src/Network/Tcp/Loop.antt =====
-- The loop of accepts of class tcp through any calls and completions in which no stop overtakes an
-- accept that has completed and whose handler has not been run.
use mathlib.Core.Path.{subst}
use cpp_alls.Prelude.{
  ◌+◌, ◌<◌, ◌≡◌, refl, ap, sym, ◌∙◌, List, [], ◌∷◌, ◌++◌, none, some, true, All, arith, ok, present,
  continue_with, continue_with-keeps,
}
use cpp_alls.AsyncConnection.{Connection}
use cpp_alls.Network.{Completion, success, aborted, failed, Accept, Event, served, warned, Host}
use cpp_alls.Network.Accepts.{is_live, count_live, IsOn, count_live-append, count_live-IsOn}
use cpp_alls.Prelude.Elements.{All-append, All-append_left, All-append_right}
use cpp_alls.Network.Tcp.{Tcp, accept, serve, on_accept, happened}
use cpp_alls.Network.Tcp.Invariant.{IsMade, IsReady, Inv, idle-Inv, accept-ok}

pub Inv-events : (s : Tcp) (events : List Event) → Inv s → Inv (record s { events = events })
Inv-events s events inv = record {
  few = inv.few;
  ready = inv.ready;
  current = inv.current;
  made = inv.made;
}

-- The accepts, one of them taken out or changed.
module _ (s : Tcp) (a : Accept) (before after : List Accept) (e : s.accepts ≡ before ++ (a ∷ after))
    (inv : Inv s) where
  whole : count_live s.accepts ≡ count_live before + count_live (a ∷ after)
  whole = ap count_live e ∙ count_live-append before (a ∷ after)

  IsMade-all : All IsMade (before ++ (a ∷ after))
  IsMade-all = subst (All IsMade) e inv.made

  current_all : All (IsOn s.acceptor) (before ++ (a ∷ after))
  current_all = subst (All (IsOn s.acceptor)) e inv.current

  pub taken-IsMade : IsMade a
  taken-IsMade = (All-append_right IsMade before (a ∷ after) IsMade-all).0

  pub rest-IsMade : All IsMade (before ++ after)
  rest-IsMade =
      All-append IsMade before after (All-append_left IsMade before (a ∷ after) IsMade-all)
        (All-append_right IsMade before (a ∷ after) IsMade-all).1

  rest-current : All (IsOn s.acceptor) (before ++ after)
  rest-current =
      All-append (IsOn s.acceptor) before after
        (All-append_left (IsOn s.acceptor) before (a ∷ after) current_all)
        (All-append_right (IsOn s.acceptor) before (a ∷ after) current_all).1

  -- Taking out an accept leaves the invariant.
  pub taken-Inv : Inv (record s { accepts = before ++ after })
  taken-Inv = record {
    few = ground (arith, whole, count_live-append before after, inv.few);
    ready = λ h. inv.ready (ground (arith, whole, count_live-append before after, h));
    current = rest-current;
    made = rest-IsMade;
  }

  -- Taking out one that has not been aborted leaves none that has not.
  pub taken-live : is_live a.result ≡ true → (count_live (before ++ after) ≡ 0) × IsReady s
  taken-live l = (
    ground (arith, whole, count_live-append before after, inv.few, l),
    inv.ready (ground (arith, whole, l)),
  )

  pub completed-Inv :
      (x : Completion)
      → a.result ≡ none
      → is_live (some x) ≡ true
      → Inv (record s { accepts = before ++ (record a { result = some x } ∷ after) })
  completed-Inv x w l =
      let b : Accept = record a { result = some x } in
      let was : is_live a.result ≡ true = ap is_live w in
      let same : count_live (b ∷ after) ≡ count_live (a ∷ after) = ground (arith, l, was) in
      let count : count_live (before ++ (b ∷ after)) ≡ count_live s.accepts =
        omega (arith, whole, same, count_live-append before (b ∷ after)) in
      let old = All-append_right (IsOn s.acceptor) before (a ∷ after) current_all in
      record {
        few = omega (arith, count, inv.few);
        ready = λ h. inv.ready (omega (arith, count, h));
        current =
            All-append (IsOn s.acceptor) before (b ∷ after)
              (All-append_left (IsOn s.acceptor) before (a ∷ after) current_all)
              (λ _. old.0 was, old.1);
        made =
            All-append IsMade before (b ∷ after)
              (All-append_left IsMade before (a ∷ after) IsMade-all)
              (taken-IsMade, (All-append_right IsMade before (a ∷ after) IsMade-all).1);
      }

module _ (host : Host) (small : host.handler_size < 1020) where
  -- A call of `accept` where the pointers are there and nothing else is under way.
  pub accept-Inv :
      (s : Tcp)
      → count_live s.accepts ≡ 0
      → All IsMade s.accepts
      → IsReady s
      → (t : Tcp) × (accept host s ≡ (ok tt, t)) × Inv t × (t.processor ≡ s.processor)
  accept-Inv s none_live made ready =
      let (a, done, waits, here, m) = accept-ok host small s ready in
      let one : count_live (s.accepts ++ (a ∷ [])) ≡ 1 =
        ground (arith, none_live, waits, count_live-append s.accepts (a ∷ [])) in
      (
        record s { accepts = s.accepts ++ (a ∷ []) },
        done,
        record {
          few = omega (arith, one);
          ready = λ h. ready;
          current =
              All-append (IsOn s.acceptor) s.accepts (a ∷ [])
                (count_live-IsOn s.acceptor s.accepts none_live) (λ _. here, tt);
          made = All-append IsMade s.accepts (a ∷ []) made (m, tt);
        },
        refl,
      )

  serve-Inv : (c : Connection) (s : Tcp) → Inv s → Inv (serve host c s).1
  unfolding serve
  serve-Inv c s inv = continue_with-keeps Inv (host.set_no_delay s.nodelay s.events) s _ inv (λ _.
      continue_with-keeps Inv (present s.processor) s _ inv
        (λ p. Inv-events s (s.events ++ (served p c ∷ [])) inv))

  -- What `on_accpet` does once the handler's accept, which was not aborted, is no longer under way.
  pub on_accept-Inv :
      (c : Connection) (x : Completion) (s : Tcp)
      → count_live s.accepts ≡ 0
      → All IsMade s.accepts
      → IsReady s
      → Inv (on_accept host c x s).1
  unfolding on_accept
  on_accept-Inv c aborted s none_live made ready = idle-Inv s none_live made
  on_accept-Inv c success s none_live made ready =
      let (t, done, inv, _) = accept-Inv s none_live made ready in
      subst (λ r. Inv (continue_with r (λ _. serve host c)).1) (sym done) (serve-Inv c t inv)
  on_accept-Inv c (failed e) s none_live made ready =
      let (t, done, inv, _) = accept-Inv s none_live made ready in
      subst (λ r. Inv (continue_with r (λ _ s. happened (warned s.log (failed e)) s)).1) (sym done)
        (Inv-events t (t.events ++ (warned t.log (failed e) ∷ [])) inv)
