-- ===== src/AsyncConnection/Started.antt =====
-- What an asynchronous operation that has been started keeps: memory of the connection's allocator,
-- and the callback.
use cpp_alls.Prelude.{ℕ, ◌≡◌, ap, sym, ◌∙◌, List, Option, Outcome, ok, >>=-eq-ok, pure}
use cpp_alls.Slab.{Pointer, allocate}
use cpp_alls.AsyncConnection.{Connection, Handler, handler, async_read, async_write, on_allocator}

module _ (operator_new : ℕ → ℕ) (handler_size : ℕ) where
  handler-allocates :
      (callback : Option ℕ) (c d : Connection) (h : Handler)
      → handler operator_new handler_size callback c ≡ (ok h, d)
      → allocate operator_new handler_size c.allocator ≡ (ok h.memory, d.allocator)
  unfolding handler
  handler-allocates callback c d h e =
      let (p, u, given, made) =
        >>=-eq-ok (on_allocator (allocate operator_new handler_size))
          (λ memory. pure (record { memory = memory; callback = callback })) c e in
      let same : ◌≡◌ {A = Handler} (record { memory = p; callback = callback }) h =
        cc (ap {A = Outcome Handler × Connection} (λ r. r.0) made) in
      λ i. (
        (ap {A = Outcome Pointer × Connection} (λ r. r.0) given
              ∙ ap (λ (h : Handler). ok h.memory) same)
            i,
        (ap {A = Outcome Pointer × Connection} (λ r. r.1.allocator) given
              ∙ ap {A = Outcome Handler × Connection} (λ r. r.1.allocator) made)
            i,
      )

  pub read-allocates :
      (callback : Option ℕ) (size : ℕ) (c d : Connection) (h : Handler)
      → async_read operator_new handler_size callback size c ≡ (ok h, d)
      → allocate operator_new handler_size c.allocator ≡ (ok h.memory, d.allocator)
  unfolding async_read
  read-allocates callback size c d h e = handler-allocates callback (record c { request = _ }) d h e

  pub write-allocates :
      (callback : Option ℕ) (bytes : List ℕ) (c d : Connection) (h : Handler)
      → async_write operator_new handler_size callback c ≡ (ok (bytes, h), d)
      → allocate operator_new handler_size c.allocator ≡ (ok h.memory, d.allocator)
  unfolding async_write
  write-allocates callback bytes c d h e =
      let (k, u, made, sent) =
        >>=-eq-ok (handler operator_new handler_size callback) (λ h. pure (c.response.bytes, h)) c
          e in
      let same : k ≡ h = cc (ap {A = Outcome (List ℕ × Handler) × Connection} (λ r. r.0) sent) in
      handler-allocates callback c u k made ∙ (λ i. (
        ok (same i).memory,
        (ap {A = Outcome (List ℕ × Handler) × Connection} (λ r. r.1.allocator) sent) i,
      ))

  handler-callback :
      (callback : Option ℕ) (c d : Connection) (h : Handler)
      → handler operator_new handler_size callback c ≡ (ok h, d)
      → h.callback ≡ callback
  unfolding handler
  handler-callback callback c d h e =
      let (p, u, _, made) =
        >>=-eq-ok (on_allocator (allocate operator_new handler_size))
          (λ memory. pure (record { memory = memory; callback = callback })) c e in
      let same : ◌≡◌ {A = Handler} (record { memory = p; callback = callback }) h =
        cc (ap {A = Outcome Handler × Connection} (λ r. r.0) made) in
      sym (ap (λ (h : Handler). h.callback) same)

  pub read-callback :
      (callback : Option ℕ) (size : ℕ) (c d : Connection) (h : Handler)
      → async_read operator_new handler_size callback size c ≡ (ok h, d)
      → h.callback ≡ callback
  unfolding async_read
  read-callback callback size c d h e = handler-callback callback (record c { request = _ }) d h e

  pub write-callback :
      (callback : Option ℕ) (bytes : List ℕ) (c d : Connection) (h : Handler)
      → async_write operator_new handler_size callback c ≡ (ok (bytes, h), d)
      → h.callback ≡ callback
  unfolding async_write
  write-callback callback bytes c d h e =
      let (k, u, made, sent) =
        >>=-eq-ok (handler operator_new handler_size callback) (λ h. pure (c.response.bytes, h)) c
          e in
      let same : k ≡ h = cc (ap {A = Outcome (List ℕ × Handler) × Connection} (λ r. r.0) sent) in
      ap (λ (h : Handler). h.callback) (sym same) ∙ handler-callback callback c u k made
