-- ===== src/Network/TcpSsl/Steps.antt =====
-- The calls of class tcp_ssl and the completions of its operations, in any order.
use cpp_alls.Prelude.{◌≡◌, List, ◌∷◌, ◌++◌, none, some}
use cpp_alls.Network.{Completion, Config, Accept, Host}
use cpp_alls.Network.TcpSsl.{TcpSsl, Handshake, create, stop, complete, complete_handshake, start}

module _ (host : Host) where
  -- Any call and any completion; a stop, and a start after it, may come at any time.
  pub data Step : TcpSsl → TcpSsl → Type 0 where
    begins : (conf : Config) (s : TcpSsl) → s.acceptor ≡ none → Step s (start host conf s).1
    ends : (s : TcpSsl) → Step s (stop s)
    accepted :
        (s : TcpSsl) (a : Accept) (before after : List Accept) (x : Completion)
        → s.accepts ≡ before ++ (a ∷ after)
        → a.result ≡ none
        → Step s (record s { accepts = before ++ (record a { result = some x } ∷ after) })
    shaken :
        (s : TcpSsl) (h : Handshake) (before after : List Handshake) (x : Completion)
        → s.handshakes ≡ before ++ (h ∷ after)
        → h.result ≡ none
        → Step s (record s { handshakes = before ++ (record h { result = some x } ∷ after) })
    runs_accept :
        (s : TcpSsl) (a : Accept) (before after : List Accept) (x : Completion)
        → s.accepts ≡ before ++ (a ∷ after)
        → a.result ≡ some x
        → Step s (complete host a x (record s { accepts = before ++ after })).1
    runs_handshake :
        (s : TcpSsl) (h : Handshake) (before after : List Handshake) (x : Completion)
        → s.handshakes ≡ before ++ (h ∷ after)
        → h.result ≡ some x
        → Step s (complete_handshake host h x (record s { handshakes = before ++ after })).1

  pub data Reachable : TcpSsl → Type 0 where
    begin : Reachable create
    next : {s t : TcpSsl} → Reachable s → Step s t → Reachable t
