-- ===== src/AsyncConnection/Handlers.antt =====
-- An asynchronous operation from its start to its callback.
use cpp_alls.Prelude.{
  ℕ, ◌<◌, ◌≡◌, ◌≢◌, refl, sym, ap, ◌∙◌, List, [], Option, M, Outcome, ok, throws, undefined,
  out_of_fuel, ◌>>=◌, continue_with, length,
}
use cpp_alls.Slab.{Slab, Pointer, storage, global, allocate, deallocate}
use cpp_alls.Slab.Arena.{Cell, render}
use cpp_alls.Slab.Lifecycle.{arena, deleted, deallocate-allocate}
use cpp_alls.Stream.Response.{StackResponse}
use cpp_alls.Stream.Response
use cpp_alls.AsyncConnection.{
  Category, other, Code, StdCategory, std_category, to_std_error_code, Connection, Handler, call,
  handler, async_write, release, write_done,
}

-- An asynchronous write from what its allocation returns, and its end from what the release returns.
abbrev written :
    Option ℕ → Code Category → Connection → Outcome Pointer × Slab → Outcome (Option ℕ) × Connection
written callback error c r =
    continue_with {A = List ℕ × Handler}
      (continue_with {A = Handler} {B = List ℕ × Handler}
        (continue_with {A = Pointer} {B = Handler} (r.0, record c { allocator = r.1 })
          (λ p d. (ok (record { memory = p; callback = callback }), d)))
        (λ h d. (ok (c.response.bytes, h), d)))
      (λ x. write_done x.1 error)

abbrev ended :
    Option ℕ
    → Code Category
    → Connection
    → Outcome (Option ℕ) × Slab
    → Outcome (Option ℕ) × Connection
ended callback error c r =
    continue_with (r.0, record c { allocator = r.1 })
      (λ freed d. (ok freed, call callback error (record d { response = record { bytes = [] } })))

written-ended :
    (callback : Option ℕ) (error : Code Category) (c : Connection) (p : Outcome Pointer) (s : Slab)
    → written callback error c (p, s) ≡ ended callback error c (continue_with (p, s) deallocate)
unfolding write_done release Response.clear
written-ended callback error c (ok p) s = refl
written-ended callback error c (throws e) s = refl
written-ended callback error c undefined s = refl
written-ended callback error c out_of_fuel s = refl

deleted-ended :
    (callback : Option ℕ) (error : Code Category) (c : Connection) (p : Outcome Pointer) (s : Slab)
    → ended callback error c (deleted p, s) ≡ (
      deleted p,
      call callback error (record c { response = record { bytes = [] }; allocator = s }),
    )
deleted-ended callback error c (ok (storage i)) s = refl
deleted-ended callback error c (ok (global a)) s = refl
deleted-ended callback error c (throws e) s = refl
deleted-ended callback error c undefined s = refl
deleted-ended callback error c out_of_fuel s = refl

module _ (operator_new : ℕ → ℕ) (handler_size : ℕ) where
  abbrev pub write_through : Option ℕ → Code Category → M Connection (Option ℕ)
  write_through callback error = do
    (bytes, h) ← async_write operator_new handler_size callback
    write_done h error

  -- Starting an asynchronous write and ending it, with or without an error, clears the response,
  -- gives the handler's memory back, so that the allocator is as before, and calls the callback
  -- once, if there is one, with the error in the standard's terms. The handler has fewer than 1020
  -- bytes, and the allocator renders four blocks of cells.
  pub write_through-done :
      (callback : Option ℕ) (error : Code Category) (c : Connection) (cs : List Cell)
      → handler_size < 1020
      → length (render cs) ≡ 4
      → c.allocator ≡ arena cs
      → write_through callback error c ≡ (
        deleted (allocate operator_new handler_size (arena cs)).0,
        call callback error (record c { response = record { bytes = [] } }),
      )
  unfolding async_write handler
  write_through-done callback error c cs small four e =
      let r = allocate operator_new handler_size c.allocator in
      let whole =
        ap (λ s. continue_with (allocate operator_new handler_size s) deallocate) e
        ∙ deallocate-allocate operator_new handler_size cs small four in
      written-ended callback error c r.0 r.1
      ∙ ap (ended callback error c) whole
      ∙ deleted-ended callback error c (allocate operator_new handler_size (arena cs)).0 (arena cs)
      ∙ ap
          (λ s. (
            deleted (allocate operator_new handler_size (arena cs)).0,
            call callback error (record c { response = record { bytes = [] }; allocator = s }),
          ))
          (sym e)

-- The category that a standard category comes from, of those that the code names.
abbrev named : StdCategory → Category
named StdCategory.generic = Category.system
named StdCategory.netdb = Category.netdb
named StdCategory.addrinfo = Category.addrinfo
named StdCategory.misc = Category.misc
named StdCategory.ssl = Category.ssl

named-std_category : (c : Category) → ((n : ℕ) → c ≢ other n) → named (std_category c) ≡ c
named-std_category Category.system h = refl
named-std_category Category.netdb h = refl
named-std_category Category.addrinfo h = refl
named-std_category Category.misc h = refl
named-std_category Category.ssl h = refl
named-std_category (Category.other n) h = absurd (h n refl)

-- Two errors of the categories that the code names, which are system, netdb, addrinfo, misc and
-- ssl, become the same code only if they are the same.
pub to_std_error_code-injective :
    (a b : Code Category)
    → ((n : ℕ) → a.category ≢ other n)
    → ((n : ℕ) → b.category ≢ other n)
    → to_std_error_code a ≡ to_std_error_code b
    → a ≡ b
unfolding to_std_error_code
to_std_error_code-injective a b h k e =
    let same : a.category ≡ b.category =
      sym (named-std_category a.category h)
      ∙ ap (λ (c : Code StdCategory). named c.category) e
      ∙ named-std_category b.category k in
    λ i. record { value = ap (λ (c : Code StdCategory). c.value) e i; category = same i }
