-- ===== src/Network/TcpSsl/Handshakes.antt =====
-- What class tcp_ssl guarantees of a handshake, in any order of calls and completions.
use mathlib.Core.Path.{subst}
use cpp_alls.Prelude.{
  ℕ, ◌<◌, ◌+◌, ◌≡◌, refl, ap, sym, ◌∙◌, List, [], ◌∷◌, ◌++◌, none, some, if◌then◌else◌, ok,
  continue_with-keeps,
}
use cpp_alls.Prelude.Elements.{split-element, split-rest, split-changed}
use cpp_alls.AsyncConnection.{fresh}
use cpp_alls.Network.{success, Config, served, Host}
use cpp_alls.Network.TcpSsl.{TcpSsl, Handshake, stop, handle_handshake, complete_handshake, start}
use cpp_alls.Network.TcpSsl.Steps.{
  Step, begins, ends, accepted, shaken, runs_accept, runs_handshake, Reachable, begin, next,
}
use cpp_alls.Network.TcpSsl.Kept.{
  KeepsAccept, KeepsHandshake, Inv, stopped-Inv, accept-Inv, complete-Inv, handle_handshake-Inv,
  complete_handshake-handle,
}

module _ (host : Host) (small : host.handler_size < 1020) where
  start-Inv : (conf : Config) (s : TcpSsl) → s.acceptor ≡ none → Inv s → Inv (start host conf s).1
  unfolding start
  start-Inv conf s off inv = continue_with-keeps Inv conf.logger s _ inv λ log.
      let s1 = record s { log = some log } in
      let inv1 : Inv s1 = record {
        set = inv.set;
        accepts = inv.accepts;
        handshakes = inv.handshakes;
      } in
      continue_with-keeps Inv conf.processor s1 _ inv1 λ p.
        let s2 = record s1 { processor = some p } in
        let inv2 : Inv s2 = record {
          set = λ a e. (p, refl);
          accepts = inv.accepts;
          handshakes = inv.handshakes;
        } in
        continue_with-keeps Inv conf.io_service s2 _ inv2 λ i.
          let s3 = record s2 { io_service = some i } in
          let inv3 : Inv s3 = record {
            set = λ a e. (p, refl);
            accepts = inv.accepts;
            handshakes = inv.handshakes;
          } in
          continue_with-keeps Inv conf.endpoint s3 _ inv3 λ _.
            continue_with-keeps Inv conf.listen s3 _ inv3 λ _.
              let s4 = record s3 {
                acceptor = some s.next_acceptor;
                next_acceptor = s.next_acceptor + 1;
              } in
              let inv4 : Inv s4 = record {
                set = λ a e. (p, refl);
                accepts = inv.accepts;
                handshakes = inv.handshakes;
              } in
              continue_with-keeps Inv (if conf.reuse_address then conf.set_reuse_address else ok tt)
                s4 _ inv4
                λ _.
                  let s5 = record s4 { nodelay = conf.nodelay; context = some s4.next_acceptor } in
                  let inv5 : Inv s5 = record {
                    set = λ a e. (p, refl);
                    accepts = inv.accepts;
                    handshakes = inv.handshakes;
                  } in
                  continue_with-keeps Inv conf.context s5 _ inv5
                    (λ _. accept-Inv host small s5 inv5)

  Step-Inv : {s t : TcpSsl} → Step host s t → Inv s → Inv t
  unfolding stop
  Step-Inv (begins conf s off) inv = start-Inv conf s off inv
  Step-Inv (ends s) inv = stopped-Inv s.acceptor s inv
  Step-Inv (accepted s a before after x e w) inv = record {
    set = inv.set;
    accepts =
        split-changed KeepsAccept s.accepts before after a e inv.accepts
          (record a { result = some x })
          (split-element KeepsAccept s.accepts before after a e inv.accepts);
    handshakes = inv.handshakes;
  }
  Step-Inv (shaken s h before after x e w) inv = record {
    set = inv.set;
    accepts = inv.accepts;
    handshakes =
        split-changed KeepsHandshake s.handshakes before after h e inv.handshakes
          (record h { result = some x })
          (split-element KeepsHandshake s.handshakes before after h e inv.handshakes);
  }
  Step-Inv (runs_accept s a before after x e w) inv =
      complete-Inv host small a x (record s { accepts = before ++ after })
        (split-element KeepsAccept s.accepts before after a e inv.accepts)
        (record {
          set = inv.set;
          accepts = split-rest KeepsAccept s.accepts before after a e inv.accepts;
          handshakes = inv.handshakes;
        })
  Step-Inv (runs_handshake s h before after x e w) inv =
      let rest = record s { handshakes = before ++ after } in
      let kept : Inv rest = record {
        set = inv.set;
        accepts = inv.accepts;
        handshakes = split-rest KeepsHandshake s.handshakes before after h e inv.handshakes;
      } in
      subst (λ q. Inv q.1)
        (sym (
          complete_handshake-handle host small h x rest
            (split-element KeepsHandshake s.handshakes before after h e inv.handshakes)))
        (handle_handshake-Inv host small h.processor x rest kept)

  pub Reachable-Inv : {s : TcpSsl} → Reachable host s → Inv s
  Reachable-Inv begin = record { set = λ a e. cc e; accepts = tt; handshakes = tt }
  Reachable-Inv (next r step) = Step-Inv step (Reachable-Inv r)

  -- In every state that starts without an acceptor, stops and completions lead to, in any order,
  -- a handshake that succeeded has a processor, and its handler hands the new connection to it.
  pub Reachable-handshake :
      {s : TcpSsl}
      → Reachable host s
      → (h : Handshake) (before after : List Handshake) → s.handshakes ≡ before ++ (h ∷ after)
      → h.result ≡ some success
      → let rest = record s { handshakes = before ++ after } in
        (p : ℕ) × (h.processor ≡ some p)
        × (complete_handshake host h success rest ≡ (
          host.process p fresh rest.events,
          record rest { events = rest.events ++ (served p fresh ∷ []) },
        ))
  unfolding handle_handshake
  Reachable-handshake {s} r h before after e done =
      let inv = Reachable-Inv r in
      let kept = split-element KeepsHandshake s.handshakes before after h e inv.handshakes in
      let rest = record s { handshakes = before ++ after } in
      let (p, _, ep, _) = kept in
      (
        p,
        ep,
        complete_handshake-handle host small h success rest kept
            ∙ ap (λ o. handle_handshake host fresh o success rest) ep,
      )
