-- ===== src/AsyncConnection/Interleaved.antt =====
-- Several asynchronous operations at once on one connection, started and ended in any order.
use cpp_alls.Prelude.{
  ◌⊎◌, inl, inr, ℕ, ◌<◌, ◌≡◌, refl, ap, sym, ◌∙◌, List, [], ◌∷◌, ◌++◌, Option, none, some, M, ok,
  map, All,
}
use mathlib.Core.Path.{subst}
use mathlib.Core.List.{map-append}
use cpp_alls.Slab.{Slab, Pointer, allocate, deallocate}
use cpp_alls.Slab
use cpp_alls.Slab.History
use cpp_alls.Slab.History.Live.{Reachable-released}
use cpp_alls.Prelude.Elements.{split-element, split-rest}
use cpp_alls.AsyncConnection.Started.{
  read-allocates, write-allocates, read-callback, write-callback,
}
use cpp_alls.Stream.Response
use cpp_alls.SyncConnection.{overwrite}
use cpp_alls.AsyncConnection.{
  Category, Code, to_std_error_code, Connection, Handler, call, fresh, async_read, async_write,
  release, read_done, write_done,
}

-- An operation under way, with the callback that it was started with and its handler.
pub data Operation : Type 0 where
  reading writing : Option ℕ → Handler → Operation

abbrev pub handler_of : Operation → Handler
handler_of (reading callback h) = h
handler_of (writing callback h) = h

abbrev pub callback_of : Operation → Option ℕ
callback_of (reading callback h) = callback
callback_of (writing callback h) = callback

abbrev pub memory_of : Operation → Pointer
memory_of o = (handler_of o).memory

-- The end of an operation; the bytes are those that a read has received.
abbrev pub complete : Operation → Code Category → List ℕ → M Connection (Option ℕ)
complete (reading callback h) error bytes = read_done h error bytes
complete (writing callback h) error bytes = write_done h error

module _ (operator_new : ℕ → ℕ) (handler_size : ℕ) where
  pub data Reachable : Connection → List Operation → Type 0 where
    begin : Reachable fresh []
    reads :
        {c d : Connection} {ops : List Operation} (callback : Option ℕ) (size : ℕ) (h : Handler)
        → Reachable c ops
        → async_read operator_new handler_size callback size c ≡ (ok h, d)
        → Reachable d (reading callback h ∷ ops)
    writes :
        {c d : Connection} {ops : List Operation} (callback : Option ℕ) (bytes : List ℕ)
        (h : Handler)
        → Reachable c ops
        → async_write operator_new handler_size callback c ≡ (ok (bytes, h), d)
        → Reachable d (writing callback h ∷ ops)
    ends :
        {c : Connection} {ops : List Operation} (o : Operation) (before after : List Operation)
        (error : Code Category) (bytes : List ℕ)
        → Reachable c ops
        → ops ≡ before ++ (o ∷ after)
        → Reachable (complete o error bytes c).1 (before ++ after)

call-allocator :
    (callback : Option ℕ) (error : Code Category) (c : Connection)
    → (call callback error c).allocator ≡ c.allocator
call-allocator none error c = refl
call-allocator (some n) error c = refl

call-calls :
    (callback : Option ℕ) (error : Code Category) (c d : Connection)
    → d.calls ≡ c.calls
    → (call callback error d).calls ≡ (call callback error c).calls
call-calls none error c d e = e
call-calls (some n) error c d e =
    ap (λ l. l ++ (record { callback = n; error = to_std_error_code error } ∷ [])) e

-- What the end of an operation does, by what giving its memory back does.
complete-released :
    (o : Operation) (error : Code Category) (bytes : List ℕ) (c : Connection) (f : Option ℕ)
    (t : Slab)
    → deallocate (memory_of o) c.allocator ≡ (ok f, t)
    → (d : Connection) × (complete o error bytes c ≡ (ok f, d))
      × (d.allocator ≡ t)
      × (d.calls ≡ (call (handler_of o).callback error c).calls)
unfolding read_done write_done release
complete-released (reading callback h) error bytes c f t e =
    let d : Connection = record c {
      request = record c.request { bytes = overwrite 0 bytes c.request.bytes };
      allocator = t;
    } in
    (
      call h.callback error d,
      rw e refl,
      call-allocator h.callback error d,
      call-calls h.callback error c d refl,
    )
complete-released (writing callback h) error bytes c f t e =
    let d : Connection = record c { response = Response.clear c.response; allocator = t } in
    (
      call h.callback error d,
      rw e refl,
      call-allocator h.callback error d,
      call-calls h.callback error c d refl,
    )

module _ (operator_new : ℕ → ℕ) (handler_size : ℕ) (small : handler_size < 1020) where
  -- Every handler under way has the callback that its operation was started with.
  abbrev KeepsCallback : Operation → Type 0
  KeepsCallback o = (handler_of o).callback ≡ callback_of o

  Reachable-callbacks :
      {c : Connection} {ops : List Operation}
      → Reachable operator_new handler_size c ops
      → All KeepsCallback ops
  Reachable-callbacks begin = tt
  Reachable-callbacks (reads {c} {d} callback size h r e) =
      (read-callback operator_new handler_size callback size c d h e, Reachable-callbacks r)
  Reachable-callbacks (writes {c} {d} callback bytes h r e) =
      (write-callback operator_new handler_size callback bytes c d h e, Reachable-callbacks r)
  Reachable-callbacks (ends {c} {ops} o before after error bytes r e) =
      split-rest KeepsCallback ops before after o e (Reachable-callbacks r)

  -- The allocator of the connection goes through a history of its own.
  Reachable-History :
      {c : Connection} {ops : List Operation}
      → Reachable operator_new handler_size c ops
      → History.Reachable operator_new c.allocator (map memory_of ops)
  Reachable-History begin = History.begin
  Reachable-History (reads {c} {d} callback size h r e) =
      History.allocated handler_size (Reachable-History r) small
        (read-allocates operator_new handler_size callback size c d h e)
  Reachable-History (writes {c} {d} callback bytes h r e) =
      History.allocated handler_size (Reachable-History r) small
        (write-allocates operator_new handler_size callback bytes c d h e)
  Reachable-History (ends {c} {ops} o before after error bytes r e) =
      let split = ap (map memory_of) e ∙ map-append memory_of before (o ∷ after) in
      let history = Reachable-History r in
      let (_, f, t, done, _) =
        Reachable-released operator_new history (memory_of o) (map memory_of before)
          (map memory_of after) split in
      let (d, ended, same, _) = complete-released o error bytes c f t done in
      let freed_ =
        History.freed (memory_of o) (map memory_of before) (map memory_of after) history split in
      subst (λ s. History.Reachable operator_new s (map memory_of (before ++ after)))
        (ap (λ r. r.1) done ∙ sym same ∙ ap (λ r. Connection.allocator r.1) (sym ended))
        (subst (History.Reachable operator_new (deallocate (memory_of o) c.allocator).1)
          (sym (map-append memory_of before after)) freed_)

  none_left :
      (t : Slab) (ops : List Operation)
      → (t ≡ Slab.init) ⊎ ((q : Pointer) × (rest : List Pointer) × (map memory_of ops ≡ q ∷ rest))
      → (t ≡ Slab.init) ⊎ ((o : Operation) × (rest : List Operation) × (ops ≡ o ∷ rest))
  none_left t [] (inl e) = inl e
  none_left t [] (inr (q, rest, e)) = absurd (cc e)
  none_left t (o ∷ ops) e = inr (o, ops, refl)

  -- Whatever reads and writes have been started on a new connection and ended, in any order: the end
  -- of any one that is under way is defined and returns, and calls the callback that this operation
  -- was started with, once, if there was one, with the error in the standard's terms; and when it
  -- was the last, the allocator of the connection is as its constructor left it. A handler has fewer
  -- than 1020 bytes.
  pub Reachable-ended :
      {c : Connection} {ops : List Operation}
      → Reachable operator_new handler_size c ops
      → (o : Operation) (before after : List Operation) → ops ≡ before ++ (o ∷ after)
      → (error : Code Category) (bytes : List ℕ)
      → (f : Option ℕ) × (d : Connection) × (complete o error bytes c ≡ (ok f, d))
        × (d.calls ≡ (call (callback_of o) error c).calls)
        × ((d.allocator ≡ Slab.init)
            ⊎ ((p : Operation) × (rest : List Operation) × (before ++ after ≡ p ∷ rest)))
  Reachable-ended {c} {ops} r o before after e error bytes =
      let split = ap (map memory_of) e ∙ map-append memory_of before (o ∷ after) in
      let (_, f, t, done, left) =
        Reachable-released operator_new (Reachable-History r) (memory_of o) (map memory_of before)
          (map memory_of after) split in
      let (d, ended, same, calls) = complete-released o error bytes c f t done in
      let own = split-element KeepsCallback ops before after o e (Reachable-callbacks r) in
      (
        f,
        d,
        ended,
        calls ∙ ap (λ callback. (call callback error c).calls) own,
        none_left d.allocator (before ++ after) (
            subst
              (λ t.
                (t ≡ Slab.init)
                ⊎ ((q : Pointer) × (rest : List Pointer) × (map memory_of (before ++ after)
                      ≡ q ∷ rest)))
              (sym same)
              (subst
                (λ l. (t ≡ Slab.init) ⊎ ((q : Pointer) × (rest : List Pointer) × (l ≡ q ∷ rest)))
                (sym (map-append memory_of before after)) left)),
      )
