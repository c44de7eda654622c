-- ===== src/Server/CommandLine.antt =====
-- src/core/server.cpp: get_config_location_or_die_helping. What Boost.Program_options makes of the
-- arguments is a parameter.
use cpp_alls.Prelude.{
  ℕ, String, List, Option, none, some, Bool, if◌then◌else◌, Outcome, ok, throws, undefined,
  out_of_fuel,
}

-- Whether `--help` is there, and the value of `--config`.
pub record Variables : Type 0 where
  pub help : Bool
  pub config : Option String

-- The location, or the program ends with this exit code, after it has printed the options.
pub data Located : Type 0 where
  exits : ℕ → Located
  located : String → Located

abbrev pub default_config_path : String
default_config_path = "config.yaml"

abbrev value_or : Option String → String → String
value_or none d = d
value_or (some v) d = v

pub locate : Variables → Located
locate vm = if vm.help then exits 1 else located (value_or vm.config default_config_path)

pub get_config_location_or_die_helping :
    (List String → Outcome Variables) → List String → Outcome Located
get_config_location_or_die_helping parse argv = elim (parse argv) [
  | ok vm ↦ ok (locate vm)
  | throws e ↦ throws e
  | undefined ↦ undefined
  | out_of_fuel ↦ out_of_fuel
]
