-- ===== src/Network/Tcp/Overtaken.antt =====
-- What happens in class tcp when a stop comes between the completion of an accept and its handler.
use mathlib.Core.List.{map-append, append_assoc}
use cpp_alls.Prelude.{
  ℕ, ◌+◌, ◌<◌, ◌≡◌, refl, ap, sym, ◌∙◌, List, [], ◌∷◌, ◌++◌, none, some, Bool, true, false, ◌==◌,
  arith, ok, undefined, continue_with,
}
use cpp_alls.AsyncConnection.{fresh}
use cpp_alls.Network.{
  Completion, success, aborted, failed, Config, Accept, warned, Host, close, abort, abort_result,
}
use cpp_alls.Network.Accepts.{is_live, count_live, count_live-append}
use cpp_alls.Network.Tcp.{
  Tcp, stop, stop_at, reset_ptrs, accept, serve, on_accept, complete, start, reload, happened,
}
use cpp_alls.Network.Tcp.Invariant.{IsReady, Inv, accept-ok}
use cpp_alls.Network.Tcp.Loop.{taken-live, taken-IsMade}
use cpp_alls.Network.Tcp.Reachable.{Reachable, complete-on_accept, Reachable-Inv}
use cpp_alls.Network.Tcp.Service.{serve-accepts}

abort_result-some : (b : Bool) (x : Completion) → abort_result b (some x) ≡ some x
abort_result-some true x = refl
abort_result-some false x = refl

abort-completed : (n : ℕ) (a : Accept) (x : Completion) → a.result ≡ some x → abort n a ≡ a
abort-completed n a x e =
    let same =
      ap (abort_result (a.acceptor == n)) e ∙ abort_result-some (a.acceptor == n) x ∙ sym e in
    λ i. record a { result = same i }

close-split :
    (n : ℕ) (a : Accept) (x : Completion) (before after : List Accept)
    → a.result ≡ some x
    → close n (before ++ (a ∷ after)) ≡ close n before ++ (a ∷ close n after)
close-split n a x before after e =
    map-append (abort n) before (a ∷ after)
    ∙ ap (λ b. close n before ++ (b ∷ close n after)) (abort-completed n a x e)

close-idle : (n : ℕ) (xs : List Accept) → count_live xs ≡ 0 → count_live (close n xs) ≡ 0
close-idle n [] e = refl
close-idle n (x ∷ xs) e = ground (arith, e, close-idle n xs)

-- A configuration with which `start` succeeds.
abbrev pub working : ℕ → ℕ → ℕ → Bool → Bool → Config
working logger processor io_service reuse_address nodelay = record {
  logger = ok logger;
  processor = ok processor;
  io_service = ok io_service;
  endpoint = ok tt;
  listen = ok tt;
  reuse_address = reuse_address;
  set_reuse_address = ok tt;
  nodelay = nodelay;
  context = ok tt;
}

-- The members after `start` has set them.
abbrev begun : ℕ → ℕ → ℕ → Bool → Tcp → Tcp
begun logger processor io_service nodelay s = record s {
  log = some logger;
  processor = some processor;
  io_service = some io_service;
  acceptor = some s.next_acceptor;
  nodelay = nodelay;
  next_acceptor = s.next_acceptor + 1;
}

start-begun :
    (host : Host) (l p i : ℕ) (reuse nodelay : Bool) (s : Tcp)
    → start host (working l p i reuse nodelay) s ≡ accept host (begun l p i nodelay s)
unfolding start
start-begun host l p i true nodelay s = refl
start-begun host l p i false nodelay s = refl

-- A handler that is not that of an abort adds an accept where `accept` can.
on_accept-adds :
    (host : Host) (small : host.handler_size < 1020) (x : Completion) (t : Tcp)
    → IsReady t
    → is_live (some x) ≡ true
    → count_live (on_accept host fresh x t).1.accepts ≡ count_live t.accepts + 1
unfolding on_accept
on_accept-adds host small aborted t ready l = absurd (cc l)
on_accept-adds host small success t ready l =
    let (b, done, bw, _, _) = accept-ok host small t ready in
    ap (λ r. count_live (Tcp.accepts (continue_with r (λ _. serve host fresh)).1)) done
    ∙ ap count_live (serve-accepts host small (record t { accepts = t.accepts ++ (b ∷ []) }))
    ∙ ground (arith, bw, count_live-append t.accepts (b ∷ []))
on_accept-adds host small (failed n) t ready l =
    let (b, done, bw, _, _) = accept-ok host small t ready in
    ap
      (λ r.
        count_live (Tcp.accepts (continue_with r (λ _ s. happened (warned s.log (failed n)) s)).1))
      done
    ∙ ground (arith, bw, count_live-append t.accepts (b ∷ []))

on_accept-undefined :
    (host : Host) (x : Completion) (t : Tcp)
    → t.io_service ≡ none
    → is_live (some x) ≡ true
    → (on_accept host fresh x t).0 ≡ undefined
unfolding on_accept accept
on_accept-undefined host aborted t e l = absurd (cc l)
on_accept-undefined host success t e l = rw e refl
on_accept-undefined host (failed n) t e l = rw e refl

module _ (host : Host) (small : host.handler_size < 1020) (s : Tcp) (r : Reachable host s)
    (a : Accept) (before after : List Accept) (x : Completion)
    (e : s.accepts ≡ before ++ (a ∷ after)) (done : a.result ≡ some x)
    (live : is_live (some x) ≡ true) where
  abbrev inv : Inv s
  inv = Reachable-Inv host small r

  was_live : is_live a.result ≡ true
  was_live = ap is_live done ∙ live

  -- The server that `stop` leaves, with its accepts.
  stopped :
      (n : ℕ) × (stop s ≡ reset_ptrs (record s { accepts = close n before ++ (a ∷ close n after) }))
  unfolding stop
  stopped =
      let (_, ready) = taken-live s a before after e inv was_live in
      let (_, _, n, _, _, acc) = ready in
      (
        n,
        ap (λ o. stop_at o s) acc
            ∙ ap (λ l. reset_ptrs (record s { accepts = l }))
                (ap (close n) e ∙ close-split n a x before after done),
      )

  -- If a stop comes between the completion of an accept, with a connection or with an error but
  -- that of an abort, and its handler, then the handler is still run, and uses null pointers: its
  -- behaviour is undefined. This is so from every state that starts without an acceptor, stops
  -- and completions lead to, with no such stop before. A handler has fewer than 1020 bytes.
  pub stop-overtakes :
      (b : List Accept) × (c : List Accept) × ((stop s).accepts ≡ b ++ (a ∷ c))
      × ((complete host a x (record (stop s) { accepts = b ++ c })).0 ≡ undefined)
  stop-overtakes =
      let (n, same) = stopped in
      let t = record (stop s) { accepts = close n before ++ close n after } in
      (
        close n before,
        close n after,
        ap Tcp.accepts same,
        ap (λ q. q.0) (complete-on_accept host small a x t (taken-IsMade s a before after e inv))
            ∙ on_accept-undefined host x t (ap Tcp.io_service same) live,
      )

  -- If a reload whose start succeeds comes between the completion of an accept, with a connection
  -- or with an error but that of an abort, and its handler, then the handler is still run, and
  -- starts a second accept beside that of the reload: two that were not aborted are under way.
  -- This is so from every state that starts without an acceptor, stops and completions lead to,
  -- with no stop at such a time before. A handler has fewer than 1020 bytes.
  pub reload-overtakes :
      (l p i : ℕ) (reuse nodelay : Bool)
      → (t : Tcp) × (b : List Accept) × (c : List Accept) × (reload host
            (working l p i reuse nodelay)
            s
          ≡ (ok tt, t))
        × (t.accepts ≡ b ++ (a ∷ c))
        × (count_live (complete host a x (record t { accepts = b ++ c })).1.accepts ≡ 2)
  unfolding reload
  reload-overtakes l p i reuse nodelay =
      let (n, same) = stopped in
      let t0 = begun l p i nodelay (stop s) in
      let (w, done_, waits, _, m) =
        accept-ok host small t0 (i, p, (stop s).next_acceptor, refl, refl, refl) in
      let b = close n before in
      let c = close n after ++ (w ∷ []) in
      let rest = record t0 { accepts = b ++ c } in
      let (idle, _) = taken-live s a before after e inv was_live in
      let none_left : count_live before + count_live after ≡ 0 =
        omega (arith, idle, count_live-append before after) in
      let zero_before = close-idle n before (omega (arith, none_left)) in
      let zero_after = close-idle n after (omega (arith, none_left)) in
      (
        record t0 { accepts = t0.accepts ++ (w ∷ []) },
        b,
        c,
        start-begun host l p i reuse nodelay (stop s) ∙ done_,
        ap (λ l. l ++ (w ∷ [])) (ap Tcp.accepts same) ∙ append_assoc b (a ∷ close n after) (w ∷ []),
        ap (λ q. count_live (Tcp.accepts q.1))
              (complete-on_accept host small a x rest (taken-IsMade s a before after e inv))
            ∙ on_accept-adds host small x rest (i, p, (stop s).next_acceptor, refl, refl, refl) live
            ∙ ground (
              arith,
              count_live-append b c,
              count_live-append (close n after) (w ∷ []),
              zero_before,
              zero_after,
              waits,
            ),
      )
