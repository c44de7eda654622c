-- ===== src/Network/Tcp/Service.antt =====
-- What class tcp guarantees where no stop overtakes a completed accept.
use mathlib.Core.Path.{subst}
use cpp_alls.Prelude.{
  ℕ, ◌≤◌, ◌<◌, ◌≡◌, ◌≢◌, refl, ap, sym, ◌∙◌, List, [], ◌∷◌, ◌++◌, none, some, Bool, true, All,
  arith, ok, undefined, present, continue_with, continue_with-keeps, continue_with-ne-undefined,
}
use cpp_alls.AsyncConnection.{Connection, fresh}
use cpp_alls.Network.{Completion, success, aborted, failed, Accept, Event, served, warned, Host}
use cpp_alls.Network.Accepts.{is_live, count_live, count_live-append}
use cpp_alls.Network.Tcp.{Tcp, serve, on_accept, complete, happened}
use cpp_alls.Network.Tcp.Invariant.{accept-ok, IsMade, IsReady}
use cpp_alls.Network.Tcp.Loop.{taken-live, taken-IsMade, rest-IsMade, accept-Inv}
use cpp_alls.Network.Tcp.Reachable.{
  completes, runs, Reachable, next, complete-on_accept, Reachable-Inv,
}

-- Neither setting an option nor a processor is undefined behaviour by itself.
pub record IsDefined (host : Host) : Type 0 where
  pub set_no_delay : (on : Bool) (events : List Event) → host.set_no_delay on events ≢ undefined
  pub process : (p : ℕ) (c : Connection) (events : List Event) → host.process p c events ≢ undefined

module _ (host : Host) (small : host.handler_size < 1020) where
  serve-defined :
      (c : Connection) (s : Tcp) (p : ℕ)
      → IsDefined host
      → s.processor ≡ some p
      → (serve host c s).0 ≢ undefined
  unfolding serve
  serve-defined c s p d ep =
      continue_with-ne-undefined (host.set_no_delay s.nodelay s.events) s _
        (d.set_no_delay s.nodelay s.events)
        (λ _ _.
          continue_with-ne-undefined (present s.processor) s _
            (λ q. absurd (cc (sym q ∙ ap present ep))) (λ p _. d.process p c s.events))

  on_accept-defined :
      (x : Completion) (s : Tcp)
      → IsDefined host
      → count_live s.accepts ≡ 0
      → All IsMade s.accepts
      → IsReady s
      → (on_accept host fresh x s).0 ≢ undefined
  unfolding on_accept
  on_accept-defined aborted s d idle made ready = λ q. cc q
  on_accept-defined success s d idle made ready =
      let (t, done, inv, same) = accept-Inv host small s idle made ready in
      let (_, p, _, _, ep, _) = ready in
      subst (λ r. (continue_with r (λ _. serve host fresh)).0 ≢ undefined) (sym done)
        (serve-defined fresh t p d (same ∙ ep))
  on_accept-defined (failed n) s d idle made ready =
      let (t, done, inv, _) = accept-Inv host small s idle made ready in
      subst (λ r. (continue_with r (λ _ s. happened (warned s.log (failed n)) s)).0 ≢ undefined)
        (sym done) (λ q. cc q)

  -- Whatever starts of a server without an acceptor, stops and completions there have been, as
  -- long as no stop came between the completion of an accept and its handler: at most one accept
  -- that was not aborted is under way, and running the handler of one that has completed uses no
  -- null pointer and is not undefined. A handler has fewer than 1020 bytes, and neither setting
  -- an option nor a processor is undefined.
  pub Reachable-complete :
      {s : Tcp}
      → Reachable host s
      → IsDefined host
      → (a : Accept) (before after : List Accept) (x : Completion)
      → s.accepts ≡ before ++ (a ∷ after)
      → a.result ≡ some x
      → (count_live s.accepts ≤ 1)
        × ((complete host a x (record s { accepts = before ++ after })).0 ≢ undefined)
  unfolding on_accept
  Reachable-complete {s} r d a before after x e done =
      let inv = Reachable-Inv host small r in
      let rest = record s { accepts = before ++ after } in
      let same = complete-on_accept host small a x rest (taken-IsMade s a before after e inv) in
      (inv.few, subst (λ q. q.0 ≢ undefined) (sym same) (live x done))
    where
      other :
          (x : Completion)
          → is_live a.result ≡ true
          → (on_accept host fresh x (record s { accepts = before ++ after })).0 ≢ undefined
      other x l =
          let inv = Reachable-Inv host small r in
          let (idle, ready) = taken-live s a before after e inv l in
          on_accept-defined x (record s { accepts = before ++ after }) d idle
            (rest-IsMade s a before after e inv) ready

      live :
          (x : Completion)
          → a.result ≡ some x
          → (on_accept host fresh x (record s { accepts = before ++ after })).0 ≢ undefined
      live aborted done = λ q. cc q
      live success done = other success (ap is_live done)
      live (failed n) done = other (failed n) (ap is_live done)

  served_once :
      (s : Tcp) (p : ℕ)
      → ((on : Bool) (events : List Event) → host.set_no_delay on events ≡ ok tt)
      → ((p : ℕ) (c : Connection) (events : List Event) → host.process p c events ≡ ok tt)
      → s.processor ≡ some p
      → serve host fresh s ≡ (ok tt, record s { events = s.events ++ (served p fresh ∷ []) })
  unfolding serve
  served_once s p sets runs_ there =
      rw (sets s.nodelay s.events, there, runs_ p fresh s.events) refl

  pub serve-accepts : (s : Tcp) → (serve host fresh s).1.accepts ≡ s.accepts
  unfolding serve
  serve-accepts s =
      let P = λ (t : Tcp). t.accepts ≡ s.accepts in
      continue_with-keeps P (host.set_no_delay s.nodelay s.events) s _ refl
        (λ _. continue_with-keeps P (present s.processor) s _ refl (λ p. refl))

  -- From every state that starts without an acceptor, stops and completions lead to, no stop
  -- between a completion and its handler, with an accept waiting: when a client connects, the run of
  -- the handler of that accept, which is no longer under way, succeeds; it gives the processor a new
  -- connection, once, and has begun exactly one accept, which waits on the server's acceptor behind
  -- those that there were. Setting the option and the processor succeed, and a handler has fewer
  -- than 1020 bytes.
  pub Reachable-served :
      {s : Tcp}
      → Reachable host s
      → ((on : Bool) (events : List Event) → host.set_no_delay on events ≡ ok tt)
      → ((p : ℕ) (c : Connection) (events : List Event) → host.process p c events ≡ ok tt)
      → (a : Accept) (before after : List Accept) → s.accepts ≡ before ++ (a ∷ after)
      → a.result ≡ none
      → let completed = record a { result = some success } in
        (t : Tcp) × (p : ℕ) × (b : Accept) × (complete host completed success
            (record s { accepts = before ++ after })
          ≡ (ok tt, t))
        × Reachable host t
        × (s.processor ≡ some p)
        × (t.events ≡ s.events ++ (served p fresh ∷ []))
        × (t.accepts ≡ (before ++ after) ++ (b ∷ []))
        × (s.acceptor ≡ some b.acceptor)
        × (b.result ≡ none)
        × (count_live t.accepts ≡ 1)
  unfolding on_accept
  Reachable-served {s} r sets processes a before after e waits =
      let inv = Reachable-Inv host small r in
      let a' : Accept = record a { result = some success } in
      let s' : Tcp = record s { accepts = before ++ (a' ∷ after) } in
      let rest : Tcp = record s { accepts = before ++ after } in
      let (idle, ready) = taken-live s a before after e inv (ap is_live waits) in
      let (_, p, _, _, ep, _) = ready in
      let (b, done, bw, on_, _) = accept-ok host small rest ready in
      let u : Tcp = record rest { accepts = rest.accepts ++ (b ∷ []) } in
      let same =
        complete-on_accept host small a' success rest (taken-IsMade s a before after e inv)
        ∙ ap (λ r. continue_with r (λ _. serve host fresh)) done in
      let v : Tcp = record u { events = u.events ++ (served p fresh ∷ []) } in
      let whole : complete host a' success rest ≡ (ok tt, v) =
        same ∙ served_once u p sets processes ep in
      (
        v,
        p,
        b,
        whole,
        subst (λ q. Reachable host q.1) whole
            (next (next r (completes s a before after success e waits refl))
              (runs s' a' before after success refl refl)),
        ep,
        refl,
        refl,
        on_,
        bw,
        ground (arith, count_live-append (before ++ after) (b ∷ []), idle, bw),
      )
