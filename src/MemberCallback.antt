-- ===== src/MemberCallback.antt =====
-- include/cppalls/core/connection.hpp: reads and writes whose callback is a member function of the
-- connection's own processor. The interface is that of async_connection_fast.hpp. An object is a
-- number, and so is a class and a function of a class.
pub mod Called
use cpp_alls.Prelude.{
  ℕ, List, Option, some, Bool, true, false, if◌then◌else◌, M, throws, logic_error,
}
use cpp_alls.AsyncConnection.{Code, StdCategory, Connection, Handler, async_read, async_write}

-- The order in which a member function takes the connection and the error code.
pub data Parameters : Type 0 where
  connection_first error_first : Parameters

-- `Ret (Processor::*function)(...)`, which may be const.
pub record Member : Type 0 where
  pub processor_class : ℕ
  pub function : ℕ
  pub parameters : Parameters
  pub is_const : Bool

-- `std::placeholders::_1` and `std::placeholders::_2`
pub data Placeholder : Type 0 where
  first second : Placeholder

-- `std::bind(function, p, arg0, arg1)`
pub record Bound : Type 0 where
  pub function : ℕ
  pub object : ℕ
  pub arg0 : Placeholder
  pub arg1 : Placeholder

pub data Argument : Type 0 where
  the_connection : Argument
  error_code : Code StdCategory → Argument

-- A call of a member function of an object.
pub record Invocation : Type 0 where
  pub function : ℕ
  pub object : ℕ
  pub argument0 : Argument
  pub argument1 : Argument

-- A callback's own arguments are the connection and the error code, in this order.
abbrev pub substitute : Placeholder → Code StdCategory → Argument
substitute first error = the_connection
substitute second error = error_code error

pub invoke : Bound → Code StdCategory → Invocation
invoke b error = record {
  function = b.function;
  object = b.object;
  argument0 = substitute b.arg0 error;
  argument1 = substitute b.arg1 error;
}

-- The parameters are the object that `connection_processor()` refers to, whether the dynamic_cast of
-- an object to a class succeeds, the number of a callback, and those of the asynchronous calls.
module _ (processor : ℕ) (is_a : ℕ → ℕ → Bool) (number : Bound → ℕ) (operator_new : ℕ → ℕ)
    (handler_size : ℕ) where
  pub async_read_generic : Member → Placeholder → Placeholder → ℕ → M Connection Handler
  async_read_generic m arg0 arg1 size c =
      if is_a processor m.processor_class
      then async_read operator_new handler_size
          (some (
            number
              (record { function = m.function; object = processor; arg0 = arg0; arg1 = arg1 })))
          size c
      else (throws logic_error, c)

  pub async_write_generic : Member → Placeholder → Placeholder → M Connection (List ℕ × Handler)
  async_write_generic m arg0 arg1 c =
      if is_a processor m.processor_class
      then async_write operator_new handler_size
          (some (
            number
              (record { function = m.function; object = processor; arg0 = arg0; arg1 = arg1 })))
          c
      else (throws logic_error, c)

  -- The four overloads, by the type of the member function.
  abbrev pub read_overload : Parameters → Bool → Member → ℕ → M Connection Handler
  read_overload connection_first false m size = async_read_generic m first second size
  read_overload connection_first true m size = async_read_generic m first second size
  read_overload error_first false m size = async_read_generic m second first size
  read_overload error_first true m size = async_read_generic m second first size

  abbrev pub write_overload : Parameters → Bool → Member → M Connection (List ℕ × Handler)
  write_overload connection_first false m = async_write_generic m first second
  write_overload connection_first true m = async_write_generic m first second
  write_overload error_first false m = async_write_generic m second first
  write_overload error_first true m = async_write_generic m second first

  pub async_read_member : Member → ℕ → M Connection Handler
  async_read_member m size = read_overload m.parameters m.is_const m size

  pub async_write_member : Member → M Connection (List ℕ × Handler)
  async_write_member m = write_overload m.parameters m.is_const m
