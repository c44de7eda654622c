-- ===== src/StackPimpl.antt =====
-- include/cppalls/core/detail/stack_pimpl.hpp, with the sizes of boost_asio_fwd.hpp and
-- boost_small_vector_fwd.hpp: an object that lives in storage of a size given beforehand.
use cpp_alls.Prelude.{
  ℕ, ◌+◌, ◌*◌, ◌≤◌, ◌≡◌, refl, Bool, true, not, ◌&&◌, ◌||◌, ◌==◌, leb, Option, none, some, Outcome,
  ok, undefined, present, arith, M, pure, ◌>>◌, ◌>>=◌, List, [], ◌∷◌,
}

-- The fundamental types, and those of Boost.Asio that storage is held for.
pub data Fundamental : Type 0 where
  character unsigned_character int unsigned_int short unsigned_short long_long unsigned_long_long :
      Fundamental

pub data AsioType : Type 0 where
  io_service tcp_socket udp_socket ssl_context tcp_ssl_socket : AsioType

-- The sizes that the compiler gives to `int`, `short` and `long long`.
pub record Sizes : Type 0 where
  pub of_int : ℕ
  pub of_short : ℕ
  pub of_long_long : ℕ

-- `lazy_size<T>::value`
pub lazy_size : Sizes → Fundamental → ℕ
lazy_size sizes Fundamental.character = 1
lazy_size sizes Fundamental.unsigned_character = 1
lazy_size sizes Fundamental.int = sizes.of_int
lazy_size sizes Fundamental.unsigned_int = sizes.of_int
lazy_size sizes Fundamental.short = sizes.of_short
lazy_size sizes Fundamental.unsigned_short = sizes.of_short
lazy_size sizes Fundamental.long_long = sizes.of_long_long
lazy_size sizes Fundamental.unsigned_long_long = sizes.of_long_long

pub asio_size : AsioType → ℕ
asio_size AsioType.io_service = 32
asio_size AsioType.tcp_socket = 32
asio_size AsioType.udp_socket = 32
asio_size AsioType.ssl_context = 32
asio_size AsioType.tcp_ssl_socket = 512

-- That of a small_vector of so many elements of this size.
pub small_vector_size : ℕ → ℕ → ℕ
small_vector_size element n = element * n + 32

-- The static assertions of the destructor.
pub accepted : Bool → ℕ → ℕ → Bool
accepted strict lazy sizeof = leb sizeof lazy && ((lazy == sizeof) || not strict)

-- What the operations of a held type do. A move also says what it leaves.
pub record Operations (T : Type 0) : Type 0 where
  pub initial : T
  pub copied : T → T
  pub moved : T → T × T
  pub copy_assigned : T → T → T
  pub move_assigned : T → T → T × T

-- Storage, with an object in it or none.
abbrev pub Storage : Type 0 → Type 0
Storage T = Option T

-- `as_held`; where there is no object, what is asked of it is undefined.
abbrev pub as_held : {T : Type 0} → Storage T → Outcome T
as_held s = present s

-- The operators -> and *.
abbrev pub dereference : {T : Type 0} → Storage T → Outcome T
dereference s = as_held s

-- The constructor that passes its arguments on, of which the type makes this object.
abbrev pub construct_from : {T : Type 0} → T → Storage T
construct_from v = some v

module _ {T : Type 0} (ops : Operations T) where
  pub construct : Storage T
  construct = some ops.initial

  pub copy_construct : Storage T → Outcome (Storage T)
  copy_construct none = undefined
  copy_construct (some v) = ok (some (ops.copied v))

  -- The new storage, and the one moved from, in which an object stays.
  pub move_construct : Storage T → Outcome (Storage T × Storage T)
  move_construct none = undefined
  move_construct (some v) = let r = ops.moved v in ok (some r.0, some r.1)

  pub copy_assign : Storage T → M (Storage T) (Unit {0})
  copy_assign (some v) (some a) = (ok tt, some (ops.copy_assigned a v))
  copy_assign _ s = (undefined, s)

  -- It returns the storage moved from.
  pub move_assign : Storage T → M (Storage T) (Storage T)
  move_assign (some v) (some a) = let r = ops.move_assigned a v in (ok (some r.1), some r.0)
  move_assign _ s = (undefined, s)

  pub destroy : Storage T → Outcome (Storage T)
  destroy none = undefined
  destroy (some v) = ok none

-- The storage for a type that the destructor accepts holds it.
pub accepted-fits :
    (strict : Bool) (lazy sizeof : ℕ) → accepted strict lazy sizeof ≡ true → sizeof ≤ lazy
unfolding accepted
accepted-fits strict lazy sizeof h = ground (arith, h)

-- An assignment from storage that holds this object.
pub data Assignment (T : Type 0) : Type 0 where
  copies moves : T → Assignment T

module _ {T : Type 0} (ops : Operations T) where
  abbrev pub assign_all : List (Assignment T) → M (Storage T) (Unit {0})
  assign_all [] = pure tt
  assign_all (Assignment.copies v ∷ rest) = copy_assign ops (some v) >> assign_all rest
  assign_all (Assignment.moves v ∷ rest) = move_assign ops (some v) >>= λ left. assign_all rest

  -- The same assignments to an object that is held directly.
  abbrev pub directly : List (Assignment T) → T → T
  directly [] a = a
  directly (Assignment.copies v ∷ rest) a = directly rest (ops.copy_assigned a v)
  directly (Assignment.moves v ∷ rest) a = directly rest (ops.move_assigned a v).0

  -- Storage in which an object has been made holds one through any assignments, the one that these
  -- make of the object, and its destructor can be run.
  pub assign_all-directly :
      (assignments : List (Assignment T)) (a : T)
      → (assign_all assignments (some a) ≡ (ok tt, some (directly assignments a)))
        × (destroy ops (some (directly assignments a)) ≡ ok none)
  unfolding copy_assign move_assign destroy
  assign_all-directly [] a = (refl, refl)
  assign_all-directly (Assignment.copies v ∷ rest) a =
      assign_all-directly rest (ops.copy_assigned a v)
  assign_all-directly (Assignment.moves v ∷ rest) a =
      assign_all-directly rest (ops.move_assigned a v).0
