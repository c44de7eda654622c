-- ===== src/AsyncConnection/Reading.antt =====
-- An asynchronous read from its start to its callback.
use cpp_alls.Prelude.{
  ℕ, ◌+◌, ◌-◌, ◌<◌, ◌≡◌, refl, sym, ap, ◌∙◌, List, [], ◌++◌, Option, none, some, M, Outcome, ok,
  throws, undefined, out_of_fuel, ◌>>=◌, continue_with, length, drop, replicate, length-replicate,
  drop-length, take-nil, arith,
}
use mathlib.Core.List.{append-nil}
use cpp_alls.Slab.{Slab, Pointer, storage, global, allocate, deallocate, blocks_required}
use cpp_alls.Slab.Arena.{Cell, render, reserve}
use cpp_alls.Slab.Lifecycle.{arena, deleted, allocate-reserve, reserved, deallocate-allocate}
use cpp_alls.Stream.Request.{StackRequest}
use cpp_alls.Stream.Request
use cpp_alls.SyncConnection.{overwrite}
use cpp_alls.AsyncConnection.{
  Category, Code, Connection, Handler, call, handler, async_read, release, read_done,
}

-- The buffer that an asynchronous read of so many bytes makes ready.
abbrev cleared : ℕ → StackRequest → StackRequest
cleared size r = Request.resize size (Request.clear r)

overwrite-cleared :
    (received : List ℕ) (r : StackRequest)
    → overwrite 0 received (cleared (length received) r).bytes ≡ received
unfolding Request.resize Request.clear
overwrite-cleared received r =
    rw (take-nil {A = ℕ} (length received)) (ap (λ l. received ++ l) nothing ∙ append-nil received)
  where
    n : ℕ
    n = length received

    long : length (replicate {A = ℕ} (n - 0) 0) ≡ 0 + n
    long = length-replicate {A = ℕ} (n - 0) 0 ∙ omega arith

    nothing : drop {A = ℕ} (0 + n) (replicate (n - 0) 0) ≡ []
    nothing =
        ap (λ k. drop k (replicate {A = ℕ} (n - 0) 0)) (sym long)
        ∙ drop-length (replicate {A = ℕ} (n - 0) 0)

-- The connection with the bytes of a read in its buffer.
abbrev pub holding : List ℕ → Connection → Connection
holding bytes c = record c { request = record { bytes = bytes; data_extracted = 0 } }

-- An asynchronous read from what its allocation returns, and its end from what the release returns.
abbrev read_from :
    Option ℕ
    → Code Category
    → List ℕ
    → Connection
    → Outcome Pointer × Slab
    → Outcome (Option ℕ) × Connection
read_from callback error received c r =
    continue_with {A = Handler}
      (continue_with {A = Pointer} {B = Handler}
        (r.0, record c { request = cleared (length received) c.request; allocator = r.1 })
        (λ p d. (ok (record { memory = p; callback = callback }), d)))
      (λ h. read_done h error received)

read_from-ok :
    (callback : Option ℕ) (error : Code Category) (received : List ℕ) (c : Connection) (p : Pointer)
    (s : Slab)
    → read_from callback error received c (ok p, s)
      ≡ continue_with
          (let r = deallocate p s in (r.0, record (holding received c) { allocator = r.1 }))
          (λ freed d. (ok freed, call callback error d))
unfolding read_done release Request.clear Request.resize
read_from-ok callback error received c p s =
    ap
      (λ bytes.
        continue_with {A = Option ℕ}
          (let r = deallocate p s in (r.0, record (holding bytes c) { allocator = r.1 }))
          (λ freed d. (ok freed, call callback error d)))
      (overwrite-cleared received c.request)

released :
    (callback : Option ℕ) (error : Code Category) (c : Connection) (p : Outcome Pointer) (s : Slab)
    → continue_with {A = Option ℕ}
        (deleted p, record c { allocator = s })
        (λ freed d. (ok freed, call callback error d))
      ≡ (deleted p, call callback error (record c { allocator = s }))
released callback error c (ok (storage i)) s = refl
released callback error c (ok (global a)) s = refl
released callback error c (throws e) s = refl
released callback error c undefined s = refl
released callback error c out_of_fuel s = refl

pub reserved-ok :
    (address : ℕ) (cs : List Cell) (o : Option (ℕ × List Cell))
    → (p : Pointer) × (s : Slab) × (reserved address cs o ≡ (ok p, s))
reserved-ok address cs none = (_, _, refl)
reserved-ok address cs (some r) = (_, _, refl)

module _ (operator_new : ℕ → ℕ) (handler_size : ℕ) where
  abbrev pub read_through : Option ℕ → Code Category → List ℕ → M Connection (Option ℕ)
  read_through callback error received = do
    h ← async_read operator_new handler_size callback (length received)
    read_done h error received

  -- Starting an asynchronous read and ending it with as many bytes as it asked for makes these bytes
  -- the unread contents of the request, gives the handler's memory back, so that the allocator is as
  -- before, and calls the callback once, if there is one. The handler has fewer than 1020 bytes, and
  -- the allocator renders four blocks of cells.
  pub read_through-done :
      (callback : Option ℕ) (error : Code Category) (received : List ℕ) (c : Connection)
      (cs : List Cell)
      → handler_size < 1020
      → length (render cs) ≡ 4
      → c.allocator ≡ arena cs
      → read_through callback error received c ≡ (
        deleted (allocate operator_new handler_size (arena cs)).0,
        call callback error (holding received c),
      )
  unfolding async_read handler
  read_through-done callback error received c cs small four e =
      let given = allocate-reserve operator_new handler_size cs small four in
      let (p, s, o) =
        reserved-ok (operator_new handler_size) cs (reserve (blocks_required handler_size) cs) in
      let back =
        ap (λ r. continue_with r deallocate) (sym (given ∙ o))
        ∙ deallocate-allocate operator_new handler_size cs small four in
      ap (read_from callback error received c)
        (ap (allocate operator_new handler_size) e ∙ given ∙ o)
      ∙ read_from-ok callback error received c p s
      ∙ ap
          (λ r.
            continue_with {A = Option ℕ} (r.0, record (holding received c) { allocator = r.1 })
              (λ freed d. (ok freed, call callback error d)))
          back
      ∙ released callback error (holding received c)
          (allocate operator_new handler_size (arena cs)).0 (arena cs)
      ∙ ap
          (λ s. (
            deleted (allocate operator_new handler_size (arena cs)).0,
            call callback error (record (holding received c) { allocator = s }),
          ))
          (sym e)
