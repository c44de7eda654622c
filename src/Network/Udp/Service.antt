-- ===== src/Network/Udp/Service.antt =====
-- The steps of class udp from a datagram that waits to the end of its connection's read.
use mathlib.Core.Path.{subst}
use mathlib.Core.List.{append-nil}
use cpp_alls.Prelude.{
  ◌⊎◌, inl, inr, ℕ, ◌+◌, ◌<◌, ◌%◌, ◌^◌, ◌≡◌, ◌≢◌, false, refl, ap, sym, ◌∙◌, List, [], ◌∷◌, ◌++◌,
  Option, some, true, ◌==◌, ltb, arith, length, drop, replicate, drop-length, length-replicate,
  Outcome, ok, throws, range_error, continue_with,
}
use cpp_alls.Stream.Scalar.{unsigned_int, little_bytes, length-little_bytes}
use cpp_alls.Stream.Request.{StackRequest, get, do_istream, extract_data}
use cpp_alls.Stream.Request.Decode.{at, get-Reads}
use cpp_alls.AsyncConnection.{Connection, Handler, release, filled}
use cpp_alls.AsyncConnection.Fresh.{sized, async_read-fresh}
use cpp_alls.Network.{Completion, success}
use cpp_alls.Network.Udp.{
  Udp, Host, Operation, receive, Event, processed, wrong_size, accept, connect, process, received,
  complete,
}
use cpp_alls.Network.Udp.Pending.{IsReady, IsOff, Held, Inv, idle, one}

-- The one operation under way, as the invariant has it.
pub taken :
    (host : Host) (s : Udp) (o : Operation)
    → Inv host s
    → s.pending ≡ o ∷ []
    → Held host o s × ((IsReady host s) ⊎ (IsOff s))
taken host s o (idle p a) e = absurd (cc (sym p ∙ e))
taken host s o (one q p h mode) e = (subst (λ o. Held host o s) (cc (sym p ∙ e)) h, mode)

pub ready_of :
    (host : Host) (s : Udp) (k : ℕ)
    → (IsReady host s) ⊎ (IsOff s)
    → s.socket ≡ some k
    → IsReady host s
ready_of host s k (inl r) e = r
ready_of host s k (inr (_, n)) e = absurd (cc (sym n ∙ e))

-- A read that has taken all its bytes leaves them to be extracted.
pub filled-all :
    (bytes : List ℕ) (n : ℕ) → length bytes ≡ n → (filled bytes (sized n)).request ≡ at [] bytes
filled-all bytes n e =
    ap (λ l. record { bytes = bytes ++ l; data_extracted = 0 })
      (ap (λ k. drop k (replicate n 0)) (omega (arith, e, length-replicate {A = ℕ} n 0))
        ∙ drop-length (replicate n 0))
    ∙ ap (λ l. record { bytes = l; data_extracted = 0 }) (append-nil bytes)

module _ (host : Host) where
  -- The end of a read: the next wait begins, and then the request is looked at.
  pub complete-receive :
      (c : Connection) (h : Handler) (q : Option ℕ) (n : ℕ) (x : Completion) (bytes : List ℕ)
      (s : Udp)
      → Held host (receive c h q n) s
      → complete host (receive c h q n) x bytes s
        ≡ continue_with (accept host s) (λ _. received host q n (filled bytes (sized n)).request x)
  unfolding complete
  complete-receive c h q n x bytes s (_, _, _, _, _, back) =
      ap
        (λ (r : Outcome (Option ℕ) × Connection).
          continue_with {A = Option ℕ} (r.0, s)
            (λ _ s. continue_with (accept host s) (λ _. received host q n r.1.request x)))
        (back bytes)

  size_first :
      (n : ℕ) (body : List ℕ)
      → n ≡ 4 + length body
      → n < 2 ^ 32
      → get host.scalars extract_data unsigned_int (at [] (little_bytes 4 n ++ body))
        ≡ (ok n, at (little_bytes 4 n) body)
  size_first n body e small =
      get-Reads host.scalars unsigned_int n (omega arith) small [] body
        (omega (arith, length-little_bytes 4 n))

  pub received-processed :
      (p n : ℕ) (body : List ℕ) (s : Udp)
      → n ≡ 4 + length body
      → n < 2 ^ 32
      → host.is_processor p ≡ true
      → ((p : ℕ) (r : StackRequest) (events : List Event) → host.process p r events ≡ ok tt)
      → received host (some p) n (at [] (little_bytes 4 n ++ body)) success s
        ≡ (ok tt, record s { events = s.events ++ (processed p (at (little_bytes 4 n) body) ∷ []) })
  unfolding received process
  received-processed p n body s e small typed runs_ =
      let same : (n == n) ≡ true = ground arith in
      rw (size_first n body e small, same, typed, runs_ p (at (little_bytes 4 n) body) s.events)
        refl

  pub received-wrong :
      (q : Option ℕ) (n size : ℕ) (rest : List ℕ) (s : Udp)
      → size < 2 ^ 32
      → length rest < 2 ^ 63
      → n ≢ size
      → received host q n (at [] (little_bytes 4 size ++ rest)) success s
        ≡ (ok tt, record s { events = s.events ++ (wrong_size s.log n size ∷ []) })
  unfolding received
  received-wrong q n size rest s fits long differ =
      let first =
        get-Reads host.scalars unsigned_int size (omega arith) fits [] rest
          (omega (arith, long, length-little_bytes 4 size)) in
      let test : (n == size) ≡ false = ground (arith, differ) in rw (first, test) refl

  pub too_short :
      (bytes : List ℕ)
      → length bytes < 4
      → get host.scalars extract_data unsigned_int (at [] bytes) ≡ (throws range_error, at [] bytes)
  unfolding get do_istream extract_data
  too_short bytes h =
      let test : ltb (length bytes) ((4 + 0) % 2 ^ 64) ≡ true = ground (arith, h) in rw test refl

module _ (host : Host) (small : host.handler_size < 1020) where
  pub connect-ok :
      (k n : ℕ) (s : Udp)
      → IsReady host s
      → host.available k s.events ≡ ok n
      → (c : Connection) × (h : Handler) × (freed : Option ℕ) × (connect host k s
          ≡ (ok tt, record s { pending = s.pending ++ (receive c h s.processor n ∷ []) }))
        × ((bytes : List ℕ) → release h (filled bytes c) ≡ (ok freed, filled bytes (sized n)))
  unfolding connect
  connect-ok k n s (i, p, d, l, ei, ep, tp, ed, el) a =
      let (h, c, freed, done, back) =
        async_read-fresh host.operator_new host.handler_size small n in
      (c, h, freed, rw (ei, a, ed, done) refl, back)
