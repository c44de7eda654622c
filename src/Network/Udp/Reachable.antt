-- ===== src/Network/Udp/Reachable.antt =====
-- The states of class udp that calls and completions lead to, without a reload.
use mathlib.Core.Path.{subst}
use cpp_alls.Prelude.{
  present, none, some, ◌⊎◌, inl, inr, ℕ, ◌+◌, ◌<◌, ◌≡◌, refl, sym, ◌∙◌, List, [], ◌∷◌, ◌++◌, Option,
  some, if◌then◌else◌, Bool-cases, Outcome, ok, continue_with, continue_with-keeps,
}
use cpp_alls.Slab.{Slab, Pointer, deallocate}
use cpp_alls.Slab
use cpp_alls.AsyncConnection.{Connection, filled}
use cpp_alls.AsyncConnection.Fresh.{sized}
use cpp_alls.Network.{Completion, Config}
use cpp_alls.Network.Udp.{
  stop_at, Udp, create, Host, Operation, peek, receive, accept, stop, reset_ptrs_common, start,
  on_accept, received, complete,
}
use cpp_alls.Network.Udp.Pending.{
  IsReady, IsOff, Held, Inv, idle, one, accept-Inv, on_accept-Inv, received-Inv,
}

module _ (host : Host) where
  -- An operation may complete in any way, and its handler is run with the bytes received.
  pub data Step : Udp → Udp → Type 0 where
    begins : (conf : Config) (s : Udp) → s.pending ≡ [] → Step s (start host conf s).1
    ends : (s : Udp) → Step s (stop s).1
    runs :
        (s : Udp) (o : Operation) (before after : List Operation) (x : Completion) (bytes : List ℕ)
        → s.pending ≡ before ++ (o ∷ after)
        → Step s (complete host o x bytes (record s { pending = before ++ after })).1

  pub data Reachable : Udp → Type 0 where
    begin : Reachable create
    next : {s t : Udp} → Reachable s → Step s t → Reachable t

nothing_in :
    {A : Type 0} (before after : List Operation) (o : Operation) → before ++ (o ∷ after) ≡ [] → A
nothing_in [] after o e = absurd (cc e)
nothing_in (x ∷ before) after o e = absurd (cc e)

only :
    (before after : List Operation) (o p : Operation)
    → before ++ (o ∷ after) ≡ p ∷ []
    → (before ++ after ≡ []) × (o ≡ p)
only [] after o p e = (cc e, cc e)
only (x ∷ before) after o p e = nothing_in before after o (cc e)

Held-pending :
    (host : Host) (o : Operation) (s : Udp) (pending : List Operation)
    → Held host o s
    → Held host o (record s { pending = pending })
Held-pending host (peek k m) s pending h = h
Held-pending host (receive c h p n) s pending k = k

pub Held-reset :
    (host : Host) (o : Operation) (s : Udp) (closing : List ℕ)
    → Held host o s
    → Held host o (reset_ptrs_common (record s { closing = closing }))
Held-reset host (peek k m) s closing h = h
Held-reset host (receive c h p n) s closing k = k

reset-Inv :
    (host : Host) (s : Udp) (closing : List ℕ)
    → Inv host s
    → Inv host (reset_ptrs_common (record s { closing = closing }))
reset-Inv host s closing (idle p a) = idle p a
reset-Inv host s closing (one o p h mode) =
    one o p (Held-reset host o s closing h) (inr (refl, refl))

module _ (host : Host) (small : host.handler_size < 1020) where
  complete-Inv :
      (o : Operation) (x : Completion) (bytes : List ℕ) (s : Udp)
      → s.pending ≡ []
      → Held host o s
      → (IsReady host s) ⊎ (IsOff s)
      → Inv host (complete host o x bytes s).1
  unfolding complete
  complete-Inv (peek k m) x bytes s p (ds, freed, e, four, back) mode =
      subst
        (λ (r : Outcome (Option ℕ) × Slab).
          Inv host
            (continue_with {A = Option ℕ} (r.0, record s { allocator = r.1 })
              (λ _. on_accept host k x)).1)
        (sym back) (on_accept-Inv host small k x (record s { allocator = Slab.init }) p refl mode)
  complete-Inv (receive c h q n) x bytes s p (_, freed, eq, typed, e, back) mode =
      subst
        (λ (r : Outcome (Option ℕ) × Connection).
          Inv host
            (continue_with {A = Option ℕ} (r.0, s)
              (λ _ s. continue_with (accept host s) (λ _. received host q n r.1.request x))).1)
        (sym (back bytes))
        (continue_with-keeps (Inv host) (accept host s).0 (accept host s).1 _
          (accept-Inv host small s p e mode)
          λ _.
            received-Inv host small q n (filled bytes (sized n)).request x (accept host s).1
              (accept-Inv host small s p e mode))

  pub runs-Inv :
      (s : Udp) (o : Operation) (before after : List Operation) (x : Completion) (bytes : List ℕ)
      → s.pending ≡ before ++ (o ∷ after)
      → Inv host s
      → Inv host (complete host o x bytes (record s { pending = before ++ after })).1
  runs-Inv s o before after x bytes e (idle p a) = nothing_in before after o (sym e ∙ p)
  runs-Inv s o before after x bytes e (one q p h mode) =
      let (rest, same) = only before after o q (sym e ∙ p) in
      complete-Inv o x bytes (record s { pending = before ++ after }) rest
        (subst (λ o. Held host o (record s { pending = before ++ after })) (sym same)
          (Held-pending host q s (before ++ after) h))
        mode

  start-Inv :
      (conf : Config) (s : Udp)
      → s.pending ≡ []
      → s.allocator ≡ Slab.init
      → Inv host (start host conf s).1
  unfolding start
  start-Inv conf s p e = continue_with-keeps (Inv host) conf.logger s _ (idle p e) λ log.
      let s1 = record s { log = some log } in
      continue_with-keeps (Inv host) conf.processor s1 _ (idle p e) λ q.
        let s2 = record s1 { processor = some q } in
        elim (Bool-cases (host.is_processor q)) [
          | inr wrong ↦ rw wrong (idle p e)
          | inl right ↦ rw right (
              continue_with-keeps (Inv host) conf.io_service s2 _ (idle p e) λ i.
                let s3 = record s2 { io_service = some i } in
                continue_with-keeps (Inv host) conf.endpoint s3 _ (idle p e) λ _.
                  continue_with-keeps (Inv host) conf.listen s3 _ (idle p e) λ _.
                    let n = s.next_socket in
                    let s4 = record s3 {
                      socket = some n;
                      socket_strand = some n;
                      next_socket = n + 1;
                    } in
                    continue_with-keeps (Inv host)
                      (if conf.reuse_address then conf.set_reuse_address else ok tt) s4 _ (idle p e)
                      λ _.
                        accept-Inv host small s4 p e
                          (inl (i, q, n, n, refl, refl, right, refl, refl)))
        ]

  stop_at-Inv : (k : Option ℕ) (s : Udp) → Inv host s → Inv host (stop_at k s).1
  stop_at-Inv none s inv = reset-Inv host s s.closing inv
  stop_at-Inv (some k) s inv = continue_with-keeps (Inv host) (present s.io_service) s _ inv λ _.
      continue_with-keeps (Inv host) (present s.socket_strand) s _ inv
        λ _. reset-Inv host s (s.closing ++ (k ∷ [])) inv

  stop-Inv : (s : Udp) → Inv host s → Inv host (stop s).1
  unfolding stop
  stop-Inv s inv = stop_at-Inv s.socket s inv

  Step-Inv : {s t : Udp} → Step host s t → Inv host s → Inv host t
  Step-Inv (begins conf s p) (idle _ a) = start-Inv conf s p a
  Step-Inv (begins conf s p) (one o q h mode) = absurd (cc (sym p ∙ q))
  Step-Inv (ends s) inv = stop-Inv s inv
  Step-Inv (runs s o before after x bytes e) inv = runs-Inv s o before after x bytes e inv

  pub Reachable-Inv : {s : Udp} → Reachable host s → Inv host s
  Reachable-Inv begin = idle refl refl
  Reachable-Inv (next r step) = Step-Inv step (Reachable-Inv r)
