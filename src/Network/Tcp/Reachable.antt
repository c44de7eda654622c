-- ===== src/Network/Tcp/Reachable.antt =====
-- The states of class tcp that calls and completions lead to.
use mathlib.Core.Path.{subst}
use cpp_alls.Prelude.{
  ℕ, ◌+◌, ◌<◌, ◌≡◌, refl, ap, sym, ◌∙◌, List, ◌∷◌, ◌++◌, Option, none, some, true, if◌then◌else◌,
  All, Outcome, ok, continue_with, continue_with-keeps,
}
use cpp_alls.AsyncConnection.{Connection, fresh}
use cpp_alls.Network.{Completion, success, aborted, failed, Config, Accept, Host}
use cpp_alls.Network.Accepts.{is_live, count_live, IsOn, IsQuiet, IsOn-none}
use cpp_alls.Network.Tcp.{Tcp, create, stop, accept, on_accept, complete, start}
use cpp_alls.Network.Tcp.Invariant.{IsMade, IsReady, Inv, idle-Inv, stop-Inv}
use cpp_alls.Network.Tcp.Loop.{
  taken-Inv, taken-live, taken-IsMade, rest-IsMade, completed-Inv, accept-Inv, on_accept-Inv,
}

module _ (host : Host) where
  -- A reload is a stop and a start. A stop finds no handler waiting that was not aborted.
  pub data Step : Tcp → Tcp → Type 0 where
    begins : (conf : Config) (s : Tcp) → s.acceptor ≡ none → Step s (start host conf s).1
    ends : (s : Tcp) → All IsQuiet s.accepts → Step s (stop s)
    completes :
        (s : Tcp) (a : Accept) (before after : List Accept) (x : Completion)
        → s.accepts ≡ before ++ (a ∷ after)
        → a.result ≡ none
        → is_live (some x) ≡ true
        → Step s (record s { accepts = before ++ (record a { result = some x } ∷ after) })
    runs :
        (s : Tcp) (a : Accept) (before after : List Accept) (x : Completion)
        → s.accepts ≡ before ++ (a ∷ after)
        → a.result ≡ some x
        → Step s (complete host a x (record s { accepts = before ++ after })).1

  pub data Reachable : Tcp → Type 0 where
    begin : Reachable create
    next : {s t : Tcp} → Reachable s → Step s t → Reachable t

module _ (host : Host) (small : host.handler_size < 1020) where
  pub complete-on_accept :
      (a : Accept) (x : Completion) (s : Tcp)
      → IsMade a
      → complete host a x s ≡ on_accept host fresh x s
  unfolding complete
  complete-on_accept a x s (freed, m) =
      ap
        (λ (r : Outcome (Option ℕ) × Connection).
          continue_with (r.0, s) (λ _. on_accept host r.1 x))
        m

  complete-Inv :
      (s : Tcp) (a : Accept) (before after : List Accept) (x : Completion)
      → s.accepts ≡ before ++ (a ∷ after)
      → a.result ≡ some x
      → Inv s
      → Inv (complete host a x (record s { accepts = before ++ after })).1
  unfolding on_accept
  complete-Inv s a before after x e done inv =
      subst (λ r. Inv r.1)
        (sym (
          complete-on_accept a x (record s { accepts = before ++ after })
            (taken-IsMade s a before after e inv)))
        (split x done)
    where
      live :
          (x : Completion)
          → is_live a.result ≡ true
          → Inv (on_accept host fresh x (record s { accepts = before ++ after })).1
      live x l =
          let (zero_live, ready) = taken-live s a before after e inv l in
          on_accept-Inv host small fresh x (record s { accepts = before ++ after }) zero_live
            (rest-IsMade s a before after e inv) ready

      split :
          (x : Completion)
          → a.result ≡ some x
          → Inv (on_accept host fresh x (record s { accepts = before ++ after })).1
      split aborted done = taken-Inv s a before after e inv
      split success done = live success (ap is_live done)
      split (failed n) done = live (failed n) (ap is_live done)

  -- The start of a server, whatever fails in it, when nothing is under way but what was aborted.
  module _ (conf : Config) (s : Tcp) (idle : count_live s.accepts ≡ 0)
      (made : All IsMade s.accepts) where
    accept_last : (t : Tcp) → t.accepts ≡ s.accepts → IsReady t → Inv (accept host t).1
    accept_last t same ready =
        let (u, done, inv, _) =
          accept-Inv host small t (ap count_live same ∙ idle) (subst (All IsMade) (sym same) made)
            ready in
        subst (λ r. Inv r.1) (sym done) inv

    start_idle-Inv : Inv (start host conf s).1
    unfolding start
    start_idle-Inv = continue_with-keeps Inv conf.logger s _ (idle-Inv s idle made) λ log.
        let s1 = record s { log = some log } in
        continue_with-keeps Inv conf.processor s1 _ (idle-Inv s1 idle made) λ p.
          let s2 = record s1 { processor = some p } in
          continue_with-keeps Inv conf.io_service s2 _ (idle-Inv s2 idle made) λ i.
            let s3 = record s2 { io_service = some i } in
            continue_with-keeps Inv conf.endpoint s3 _ (idle-Inv s3 idle made) λ _.
              continue_with-keeps Inv conf.listen s3 _ (idle-Inv s3 idle made) λ _.
                let s4 = record s3 {
                  acceptor = some s.next_acceptor;
                  next_acceptor = s.next_acceptor + 1;
                } in
                continue_with-keeps Inv
                  (if conf.reuse_address then conf.set_reuse_address else ok tt) s4 _
                  (idle-Inv s4 idle made)
                  λ _.
                    accept_last (record s4 { nodelay = conf.nodelay }) refl
                      (i, p, s.next_acceptor, refl, refl, refl)

  start-Inv : (conf : Config) (s : Tcp) → s.acceptor ≡ none → Inv s → Inv (start host conf s).1
  start-Inv conf s off inv =
      start_idle-Inv conf s
        (IsOn-none s.accepts (subst (λ o. All (IsOn o) s.accepts) off inv.current)) inv.made

  Step-Inv : {s t : Tcp} → Step host s t → Inv s → Inv t
  Step-Inv (begins conf s off) inv = start-Inv conf s off inv
  Step-Inv (ends s q) inv = stop-Inv s q inv
  Step-Inv (completes s a before after x e w l) inv = completed-Inv s a before after e inv x w l
  Step-Inv (runs s a before after x e done) inv = complete-Inv s a before after x e done inv

  pub Reachable-Inv : {s : Tcp} → Reachable host s → Inv s
  Reachable-Inv begin = idle-Inv create refl tt
  Reachable-Inv (next r step) = Step-Inv step (Reachable-Inv r)
