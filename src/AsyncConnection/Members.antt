-- ===== src/AsyncConnection/Members.antt =====
-- src/apps/boost_tcp/async_connection_fast.hpp: the members that a connection keeps beside its
-- request, its response and its allocator.
use cpp_alls.Prelude.{
  ℕ, ◌≡◌, refl, Option, none, some, M, Outcome, ok, throws, undefined, out_of_fuel, present, ◌>>=◌,
  required,
}
use cpp_alls.Slab.{Slab}
use cpp_alls.Stream.Request.{StackRequest}
use cpp_alls.Stream.Response.{StackResponse}
use cpp_alls.AsyncConnection.{Connection, fresh}

-- `S` is the type of the socket, `Protocol`. Applications are numbers, a null pointer is none.
pub record Members (S : Type 0) : Type 0 where
  pub base : Connection
  pub parent : Option ℕ
  pub log : Option ℕ
  pub processor : Option ℕ
  pub io_service : Option ℕ
  pub socket : S

abbrev pub allocator : Connection → Slab
allocator c = c.allocator

abbrev pub request : Connection → StackRequest
request c = c.request

abbrev pub response : Connection → StackResponse
response c = c.response

module _ {S : Type 0} where
  -- The constructor: the socket is made on the io_service, with what else it is given.
  pub make : (ℕ → Outcome S) → Option ℕ → Option ℕ → Option ℕ → Outcome (Members S)
  make socket parent processor none = undefined
  make socket parent processor (some i) = elim (socket i) [
    | ok s ↦ ok (record {
      base = fresh;
      parent = parent;
      log = none;
      processor = processor;
      io_service = some i;
      socket = s;
    })
    | throws e ↦ throws e
    | undefined ↦ undefined
    | out_of_fuel ↦ out_of_fuel
  ]

  pub connection_processor : Members S → Outcome ℕ
  connection_processor m = present m.processor

  -- `start`, by what a call of the processor does with the connection.
  pub start : (ℕ → M (Members S) (Unit {0})) → M (Members S) (Unit {0})
  start process m = (do processor ← required m.processor; process processor) m

  -- A connection that has been made has no logger, whatever the server's is, and is new; its socket
  -- is one of the io_service that it keeps, and `start` gives it to the processor that it keeps.
  pub make-start :
      (socket : ℕ → Outcome S) (parent : Option ℕ) (p i : ℕ) (s : S)
      → socket i ≡ ok s
      → (process : ℕ → M (Members S) (Unit {0}))
      → (m : Members S) × (make socket parent (some p) (some i) ≡ ok m)
        × (m.log ≡ none)
        × (m.base ≡ fresh)
        × (m.socket ≡ s)
        × (start process m ≡ process p m)
  unfolding make start
  make-start socket parent p i s e process = (
    record {
      base = fresh;
      parent = parent;
      log = none;
      processor = some p;
      io_service = some i;
      socket = s;
    },
    rw (e, make) refl,
    refl,
    refl,
    refl,
    refl,
  )
