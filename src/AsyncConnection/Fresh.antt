-- ===== src/AsyncConnection/Fresh.antt =====
-- The first handler of a new connection: its memory is taken from an allocator of which all is free.
use cpp_alls.Prelude.{
  ℕ, ◌<◌, ◌≡◌, refl, sym, ap, ◌∙◌, [], ◌∷◌, Option, none, some, Outcome, ok, pure, continue_with,
  List, replicate, arith, take-nil, ◌-◌, ◌++◌,
}
use cpp_alls.Stream.Request.{StackRequest, clear, resize}
use cpp_alls.Stream.Request
use cpp_alls.Slab.{Slab, Pointer, storage, global, allocate, deallocate, blocks_required}
use cpp_alls.Slab
use cpp_alls.Slab.Arena.{Cell, free}
use cpp_alls.Slab.Lifecycle.{arena}
use cpp_alls.AsyncConnection.{Connection, Handler, fresh, handler, release, async_read, filled}
use cpp_alls.Slab.Given.{allocate-given}

abbrev pub four_free : List Cell
four_free = free ∷ free ∷ free ∷ free ∷ []

pub init-arena : Slab.init ≡ arena four_free
unfolding Slab.init
init-arena = refl

module _ (operator_new : ℕ → ℕ) (size : ℕ) (small : size < 1020) where
  -- Below 1020 bytes the handler is made, and giving its memory back makes the connection new again.
  pub handler-fresh :
      (h : Handler) × (c : Connection) × (freed : Option ℕ) × (handler operator_new size none fresh
        ≡ (ok h, c))
      × (release h c ≡ (ok freed, fresh))
  unfolding handler release
  handler-fresh =
      let (p, ds, freed, _, given, back) = allocate-given operator_new size four_free small refl in
      (
        record { memory = p; callback = none },
        record fresh { allocator = arena ds },
        freed,
        ap
            (λ r.
              continue_with {A = Pointer}
                (let q : Outcome Pointer × Slab = r in (q.0, record fresh { allocator = q.1 }))
                (λ memory. pure (record { memory = memory; callback = none })))
            (ap (allocate operator_new size) init-arena ∙ given),
        ap {A = Outcome (Option ℕ) × Slab} (λ r. (r.0, record fresh { allocator = r.1 }))
            (back ∙ ap {A = Slab} (λ x. (ok freed, x)) (sym init-arena)),
      )

-- A new connection that is to receive so many bytes.
abbrev pub sized : ℕ → Connection
sized n = record fresh { request = record { bytes = replicate n 0; data_extracted = 0 } }

resized :
    (n : ℕ) → resize n (clear Request.init) ≡ record { bytes = replicate n 0; data_extracted = 0 }
unfolding resize clear
resized n =
    ap (λ l. record { bytes = l ++ replicate (n - 0) 0; data_extracted = 0 }) (take-nil n)
    ∙ ap (λ k. record { bytes = replicate k 0; data_extracted = 0 }) (omega arith)

module _ (operator_new : ℕ → ℕ) (size : ℕ) (small : size < 1020) where
  -- A read of a new connection is started, and its handler's memory can be given back.
  pub async_read-fresh :
      (n : ℕ)
      → (h : Handler) × (c : Connection) × (freed : Option ℕ) × (async_read operator_new size
            (some 0)
            n
            fresh
          ≡ (ok h, c))
        × ((bytes : List ℕ) → release h (filled bytes c) ≡ (ok freed, filled bytes (sized n)))
  unfolding async_read handler release
  async_read-fresh n =
      let (p, ds, freed, four, given, back) =
        allocate-given operator_new size four_free small refl in
      (
        record { memory = p; callback = some 0 },
        record (sized n) { allocator = arena ds },
        freed,
        ap (λ (q : StackRequest). handler operator_new size (some 0) (record fresh { request = q }))
              (resized n)
            ∙ ap
                (λ r.
                  continue_with {A = Pointer}
                    (let q : Outcome Pointer × Slab = r in
                      (q.0, record (sized n) { allocator = q.1 }))
                    (λ memory. pure (record { memory = memory; callback = some 0 })))
                (ap (allocate operator_new size) init-arena ∙ given),
        (λ bytes.
            ap {A = Outcome (Option ℕ) × Slab}
              (λ r. (r.0, record (filled bytes (sized n)) { allocator = r.1 }))
              (back ∙ ap {A = Slab} (λ x. (ok freed, x)) (sym init-arena))),
      )
