-- ===== src/AsyncConnection.antt =====
-- src/apps/boost_tcp/async_connection_fast.hpp with handler_allocator.hpp and
-- to_std_error_code.cpp: a connection whose reads and writes end in a callback. Boost.Asio asks the
-- slab allocator of the connection for the memory of a handler when the operation is started, and
-- gives it back before it calls the handler.
pub mod Handlers
pub mod Members
pub mod Reading
pub mod Fresh
pub mod Started
pub mod Interleaved
use cpp_alls.Prelude.{
  ℕ, zero, suc, ◌+◌, List, [], ◌∷◌, ◌++◌, Option, none, some, M, Outcome, ok, throws, undefined,
  out_of_fuel, pure, ◌>>=◌, ◌>>◌, continue_with, length, drop, take,
}
use cpp_alls.Slab.{Slab, Pointer, allocate, deallocate}
use cpp_alls.Slab
use cpp_alls.Stream.Request.{StackRequest}
use cpp_alls.Stream.Request
use cpp_alls.Stream.Response.{StackResponse}
use cpp_alls.Stream.Response
use cpp_alls.SyncConnection.{overwrite}

-- The categories of Boost's error codes, those of the standard's codes that they become, and a code.
pub data Category : Type 0 where
  system netdb addrinfo misc ssl : Category
  other : ℕ → Category

pub data StdCategory : Type 0 where
  generic netdb addrinfo misc ssl : StdCategory

pub record Code (C : Type 0) : Type 0 where
  pub value : ℕ
  pub category : C

abbrev pub std_category : Category → StdCategory
std_category Category.system = StdCategory.generic
std_category Category.netdb = StdCategory.netdb
std_category Category.addrinfo = StdCategory.addrinfo
std_category Category.misc = StdCategory.misc
std_category Category.ssl = StdCategory.ssl
std_category (Category.other n) = StdCategory.generic

pub to_std_error_code : Code Category → Code StdCategory
to_std_error_code error = record { value = error.value; category = std_category error.category }

-- A callback is a number, and a call of it is recorded with its error code.
pub record Call : Type 0 where
  pub callback : ℕ
  pub error : Code StdCategory

pub record Connection : Type 0 where
  pub request : StackRequest
  pub response : StackResponse
  pub allocator : Slab
  pub calls : List Call

-- A connection with all its parts as their constructors leave them.
abbrev pub fresh : Connection
fresh = record {
  request = Request.init;
  response = record { bytes = [] };
  allocator = Slab.init;
  calls = [];
}

-- The handler of an operation under way: where its memory is, and its callback, which may be empty.
pub record Handler : Type 0 where
  pub memory : Pointer
  pub callback : Option ℕ

-- An operation on the allocator of a connection.
abbrev pub on_allocator : {A : Type 0} → M Slab A → M Connection A
on_allocator f c = let r = f c.allocator in (r.0, record c { allocator = r.1 })

-- `connection::operator>>` and `connection::operator<<`.
abbrev pub on_request : {A : Type 0} → M StackRequest A → M Connection A
on_request f c = let r = f c.request in (r.0, record c { request = r.1 })

abbrev pub on_response : {A : Type 0} → M StackResponse A → M Connection A
on_response f c = let r = f c.response in (r.0, record c { response = r.1 })

-- `if (callback_) callback_(*connection_, to_std_error_code(error));`
abbrev pub call : Option ℕ → Code Category → Connection → Connection
call none error c = c
call (some callback) error c = record c {
  calls = c.calls ++ (record { callback = callback; error = to_std_error_code error } ∷ []);
}

-- The parameters are what `::operator new` returns and the bytes that Boost.Asio asks for a handler.
module _ (operator_new : ℕ → ℕ) (handler_size : ℕ) where
  -- `asio_handler_allocate`
  unfoldable pub handler : Option ℕ → M Connection Handler
  handler callback = do
    memory ← on_allocator (allocate operator_new handler_size)
    pure (record { memory = memory; callback = callback })

  -- The bytes to send, and the handler.
  unfoldable pub async_write : Option ℕ → M Connection (List ℕ × Handler)
  async_write callback c = (do h ← handler callback; pure (c.response.bytes, h)) c

  unfoldable pub async_read : Option ℕ → ℕ → M Connection Handler
  async_read callback size = do
    (λ c. (ok tt, record c { request = Request.resize size (Request.clear c.request) }))
    handler callback

-- `asio_handler_deallocate`, with the address that goes to `::operator delete`, if any.
unfoldable pub release : Handler → M Connection (Option ℕ)
release h = on_allocator (deallocate h.memory)

-- `callback_write_wrapped`: the response is cleared whether or not it has been sent.
pub write_done : Handler → Code Category → M Connection (Option ℕ)
write_done h error = do
  freed ← release h
  (λ c. (ok freed, call h.callback error (record c { response = Response.clear c.response })))

-- The bytes that a read has received stand at the start of its buffer.
abbrev pub filled : List ℕ → Connection → Connection
filled bytes c = record c {
  request = record c.request { bytes = overwrite 0 bytes c.request.bytes };
}

-- `callback_read_wrapped`, after the bytes received have been written into the buffer.
pub read_done : Handler → Code Category → List ℕ → M Connection (Option ℕ)
read_done h error received = do
  (λ c. (
    ok tt,
    record c { request = record c.request { bytes = overwrite 0 received c.request.bytes } },
  ))
  freed ← release h
  (λ c. (ok freed, call h.callback error c))
