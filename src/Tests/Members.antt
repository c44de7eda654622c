-- ===== src/Tests/Members.antt =====
-- A read and a write with a const member function that takes the error code first.
use cpp_alls.Prelude.{ℕ, ◌≡◌, refl, some, true, List, [], ◌∷◌, Bool, arith, continue_with}
use cpp_alls.Slab.{allocate}
use cpp_alls.Slab.Arena.{Cell, free, used}
use cpp_alls.Slab.Lifecycle.{arena, deleted}
use cpp_alls.AsyncConnection.{
  Category, Code, Connection, call, fresh, to_std_error_code, read_done, write_done,
}
use cpp_alls.AsyncConnection.Reading.{holding}
use cpp_alls.MemberCallback.{
  Member, error_first, Bound, invoke, async_read_member, async_write_member,
}
use cpp_alls.MemberCallback.Called.{asked, member-called}

abbrev on_event : Member
on_event = record { processor_class = 2; function = 7; parameters = error_first; is_const = true }

abbrev cells : List Cell
cells = used 1 ∷ free ∷ free ∷ []

abbrev link : Connection
link = record fresh { allocator = arena cells }

abbrev broken_pipe : Code Category
broken_pipe = record { value = 32; category = Category.system }

abbrev is_a : ℕ → ℕ → Bool
is_a object c = true

abbrev number : Bound → ℕ
number b = b.function

abbrev heap : ℕ → ℕ
heap size = 4096

member-called_example :
    (b : Bound) × (invoke b (to_std_error_code broken_pipe)
      ≡ asked error_first 7 5 (to_std_error_code broken_pipe))
    × (continue_with
          (async_read_member 5 is_a number heap 300 on_event 2 link)
          (λ h. read_done h broken_pipe (8 ∷ 9 ∷ []))
        ≡ (
          deleted (allocate heap 300 (arena cells)).0,
          call (some (number b)) broken_pipe (holding (8 ∷ 9 ∷ []) link),
        ))
    × (continue_with
          (async_write_member 5 is_a number heap 300 on_event link)
          (λ sent. write_done sent.1 broken_pipe)
        ≡ (
          deleted (allocate heap 300 (arena cells)).0,
          call (some (number b)) broken_pipe (record link { response = record { bytes = [] } }),
        ))
member-called_example =
    member-called 5 is_a number heap 300 on_event refl broken_pipe (8 ∷ 9 ∷ []) link cells
      (omega arith) refl refl
