-- ===== src/Network/Tcp/Invariant.antt =====
-- The members of class tcp and its accepts between two calls.
use cpp_alls.Prelude.{
  ℕ, ◌≤◌, ◌<◌, ◌≡◌, refl, ap, ◌∙◌, List, [], ◌∷◌, ◌++◌, Option, none, some, All, arith, Outcome, ok,
  required, continue_with,
}
use cpp_alls.AsyncConnection.{Connection, Handler, fresh, release}
use cpp_alls.AsyncConnection.Fresh.{handler-fresh}
use cpp_alls.Network.{Accept, Host, close}
use cpp_alls.Network.Accepts.{
  count_live, IsOn, IsQuiet, count_live-IsOn, IsOn-none, count_live-close,
}
use cpp_alls.Network.Tcp.{Tcp, stop, reset_ptrs, stop_at, new_connection, wait, accept}

-- Giving the handler's memory back leaves a connection as new.
abbrev pub IsMade : Accept → Type 0
IsMade a = (freed : Option ℕ) × (release a.handler a.connection ≡ (ok freed, fresh))

-- The pointers that `accept` and the processor's call use are not null.
abbrev pub IsReady : Tcp → Type 0
IsReady s =
    (i : ℕ) × (p : ℕ) × (a : ℕ) × (s.io_service ≡ some i)
    × (s.processor ≡ some p)
    × (s.acceptor ≡ some a)

pub record Inv (s : Tcp) : Type 0 where
  pub few : count_live s.accepts ≤ 1
  pub ready : 0 < count_live s.accepts → IsReady s
  pub current : All (IsOn s.acceptor) s.accepts
  pub made : All IsMade s.accepts

-- Where nothing is under way but what was aborted, the members do not matter.
pub idle-Inv : (s : Tcp) → count_live s.accepts ≡ 0 → All IsMade s.accepts → Inv s
idle-Inv s e m = record {
  few = omega arith;
  ready = λ h. absurd (omega arith);
  current = count_live-IsOn s.acceptor s.accepts e;
  made = m;
}

pub abort-IsMade : (n : ℕ) (xs : List Accept) → All IsMade xs → All IsMade (close n xs)
abort-IsMade n [] m = tt
abort-IsMade n (x ∷ xs) (m, ms) = (m, abort-IsMade n xs ms)

stopped-Inv :
    (acceptor : Option ℕ) (s : Tcp)
    → All IsQuiet s.accepts
    → All (IsOn acceptor) s.accepts
    → All IsMade s.accepts
    → Inv (stop_at acceptor s)
stopped-Inv none s q h m = idle-Inv (reset_ptrs s) (IsOn-none s.accepts h) m
stopped-Inv (some a) s q h m =
    idle-Inv (reset_ptrs (record s { accepts = close a s.accepts }))
      (count_live-close a s.accepts q h) (abort-IsMade a s.accepts m)

pub stop-Inv : (s : Tcp) → All IsQuiet s.accepts → Inv s → Inv (stop s)
unfolding stop
stop-Inv s q inv = stopped-Inv s.acceptor s q inv.current inv.made

module _ (host : Host) (small : host.handler_size < 1020) where
  pub accept-ok :
      (s : Tcp)
      → IsReady s
      → (a : Accept) × (accept host s ≡ (ok tt, record s { accepts = s.accepts ++ (a ∷ []) }))
        × (a.result ≡ none)
        × (s.acceptor ≡ some a.acceptor)
        × IsMade a
  unfolding accept new_connection
  accept-ok s (i, p, n, ei, ep, ea) =
      let (h, c, freed, m, r) = handler-fresh host.operator_new host.handler_size small in
      let steps : Option ℕ → Outcome Handler → Option ℕ → Outcome (Unit {0}) × Tcp =
        λ io made acceptor. continue_with (required io s) (λ _ s.
          continue_with (made, s)
            (λ h s. continue_with (required acceptor s) (λ n. wait host n h))) in
      (
        record {
          acceptor = n;
          handler = h;
          connection = (new_connection host).1;
          processor = s.processor;
          result = none;
        },
        ap (λ io. steps io (new_connection host).0 s.acceptor) ei
            ∙ ap (λ (q : Outcome Handler × Connection). steps (some i) q.0 s.acceptor) m
            ∙ ap (λ acceptor. steps (some i) (ok h) acceptor) ea,
        refl,
        ea,
        (freed, ap (λ (q : Outcome Handler × Connection). release h q.1) m ∙ r),
      )
