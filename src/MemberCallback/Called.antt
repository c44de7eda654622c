-- ===== src/MemberCallback/Called.antt =====
-- The member function that a read or a write of connection.hpp ends with.
use cpp_alls.Prelude.{
  ℕ, ◌<◌, ◌≡◌, refl, ap, ◌∙◌, List, [], some, Bool, true, false, continue_with, length,
}
use cpp_alls.Slab.{allocate}
use cpp_alls.Slab.Arena.{Cell, render}
use cpp_alls.Slab.Lifecycle.{arena, deleted}
use cpp_alls.AsyncConnection.{
  Category, Code, StdCategory, to_std_error_code, Connection, call, async_read, async_write,
  read_done, write_done,
}
use cpp_alls.AsyncConnection.Handlers.{write_through-done}
use cpp_alls.AsyncConnection.Reading.{read_through-done, holding}
use cpp_alls.MemberCallback.{
  Parameters, connection_first, error_first, Member, Placeholder, first, second, Bound,
  the_connection, error_code, Invocation, invoke, async_read_generic, async_write_generic,
  read_overload, write_overload, async_read_member, async_write_member,
}

-- The call that the type of a member function asks for.
abbrev pub asked : Parameters → ℕ → ℕ → Code StdCategory → Invocation
asked connection_first function object error = record {
  function = function;
  object = object;
  argument0 = the_connection;
  argument1 = error_code error;
}
asked error_first function object error = record {
  function = function;
  object = object;
  argument0 = error_code error;
  argument1 = the_connection;
}

module _ (processor : ℕ) (is_a : ℕ → ℕ → Bool) (number : Bound → ℕ) (operator_new : ℕ → ℕ)
    (handler_size : ℕ) where
  abbrev bound : Member → Placeholder → Placeholder → Bound
  bound m arg0 arg1 = record { function = m.function; object = processor; arg0 = arg0; arg1 = arg1 }

  -- What is started when the processor is of the function's class.
  started :
      (m : Member)
      → is_a processor m.processor_class ≡ true
      → (b : Bound) × ((error : Code StdCategory)
          → invoke b error ≡ asked m.parameters m.function processor error)
        × ((size : ℕ) (c : Connection)
            → async_read_member processor is_a number operator_new handler_size m size c
              ≡ async_read operator_new handler_size (some (number b)) size c)
        × ((c : Connection)
            → async_write_member processor is_a number operator_new handler_size m c
              ≡ async_write operator_new handler_size (some (number b)) c)
  unfolding invoke async_read_member async_write_member async_read_generic async_write_generic
  started m e = split m.parameters m.is_const
    where
      split :
          (p : Parameters) (k : Bool)
          → (b : Bound) × ((error : Code StdCategory)
              → invoke b error ≡ asked p m.function processor error)
            × ((size : ℕ) (c : Connection)
                → read_overload processor is_a number operator_new handler_size p k m size c
                  ≡ async_read operator_new handler_size (some (number b)) size c)
            × ((c : Connection)
                → write_overload processor is_a number operator_new handler_size p k m c
                  ≡ async_write operator_new handler_size (some (number b)) c)
      split connection_first true =
          (bound m first second, λ error. refl, λ size c. rw e refl, λ c. rw e refl)
      split connection_first false =
          (bound m first second, λ error. refl, λ size c. rw e refl, λ c. rw e refl)
      split error_first true =
          (bound m second first, λ error. refl, λ size c. rw e refl, λ c. rw e refl)
      split error_first false =
          (bound m second first, λ error. refl, λ size c. rw e refl, λ c. rw e refl)

  -- A read or a write with a member function, of whichever of the two types and const or not, of a
  -- class that the connection's processor is of: the read with as many bytes as it asked for, and the
  -- write, each end with one call of that function on that processor, with the connection and the
  -- error in the standard's terms in the order that the function takes them. The handler has fewer
  -- than 1020 bytes, and the allocator renders four blocks of cells.
  pub member-called :
      (m : Member)
      → is_a processor m.processor_class ≡ true
      → (error : Code Category) (bytes : List ℕ) (c : Connection) (cs : List Cell)
      → handler_size < 1020
      → length (render cs) ≡ 4
      → c.allocator ≡ arena cs
      → (b : Bound) × (invoke b (to_std_error_code error)
          ≡ asked m.parameters m.function processor (to_std_error_code error))
        × (continue_with
              (async_read_member processor is_a number operator_new handler_size m (length bytes) c)
              (λ h. read_done h error bytes)
            ≡ (
              deleted (allocate operator_new handler_size (arena cs)).0,
              call (some (number b)) error (holding bytes c),
            ))
        × (continue_with
              (async_write_member processor is_a number operator_new handler_size m c)
              (λ sent. write_done sent.1 error)
            ≡ (
              deleted (allocate operator_new handler_size (arena cs)).0,
              call (some (number b)) error (record c { response = record { bytes = [] } }),
            ))
  member-called m e error bytes c cs small four arena_ =
      let (b, invoked, reads, writes) = started m e in
      (
        b,
        invoked (to_std_error_code error),
        ap (λ r. continue_with r (λ h. read_done h error bytes)) (reads (length bytes) c)
            ∙ read_through-done operator_new handler_size (some (number b)) error bytes c cs small
                four arena_,
        ap (λ r. continue_with r (λ sent. write_done sent.1 error)) (writes c)
            ∙ write_through-done operator_new handler_size (some (number b)) error c cs small four
                arena_,
      )
