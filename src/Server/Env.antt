-- ===== src/Server/Env.antt =====
-- What server.cpp takes from yaml-cpp, Boost.Filesystem, Boost.DLL and the applications that it
-- loads. The results of application calls may depend on all that was called before.
use cpp_alls.Prelude.{ℕ, String, List, Option, Bool, Outcome}

-- A call on the application object with this number.
pub data Event : Type 0 where
  constructed started stopped reloaded destroyed : ℕ → Event

pub record Env : Type 1 where
  -- A YAML node, and `YAML::LoadFile` and `YAML::Load`.
  pub Node : Type 0
  pub load_file : String → Outcome Node
  pub load_text : String → Outcome Node
  -- `node[key]` of a node that is not a scalar, and `config["core"][key]`.
  pub field : Node → String → Option Node
  pub core : Node → String → Outcome (Option Node)
  pub as_text : Node → Outcome String
  pub is_scalar : Node → Bool
  pub is_sequence : Node → Bool
  pub is_null : Node → Bool
  pub elements : Node → List Node
  -- `parent_path(config_path) / p`, for a relative `p`.
  pub is_relative : String → Bool
  pub beside : String → String → String
  -- Whether `is_directory(p, error)` and `is_regular_file(p, error)` hold, and whether they set
  -- `error`.
  pub is_directory : String → Bool
  pub is_regular_file : String → Bool
  pub status_error : String → Bool
  -- What a `directory_iterator` visits.
  pub directory : String → Outcome (List String)
  pub sort : List String → List String
  -- `library_info(p).symbols("cppalls")`, and where the program itself lies.
  pub symbols : String → Outcome (List String)
  pub this_line_location : String
  -- Loading the library and calling the constructor behind its alias.
  pub construct : String → String → List Event → Outcome (Unit {0})
  pub start_app : ℕ → Node → List Event → Outcome (Unit {0})
  pub reload_app : ℕ → Node → List Event → Outcome (Unit {0})
  pub stop_app : ℕ → List Event → Outcome (Unit {0})
  -- Whether an application of the type is an `api::logger`.
  pub is_logger : String → Bool
