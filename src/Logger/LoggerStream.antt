-- ===== src/Logger/LoggerStream.antt =====
-- The logger_stream of include/cppalls/core/logging.hpp, behind the macros LTRACE to LFATAL.
use cpp_alls.Prelude.{Option, none, some, String, str_eq, if◌then◌else◌, M}
use cpp_alls.Logger.{Level}

-- A logger_stream collects a text for a logger, if its pointer to one is not null.
pub record LoggerStream (L : Type 0) : Type 0 where
  pub log : Option L
  pub lvl : Level
  pub text : String

-- The destructor: what the logger is after it. An exception of its `log` is dropped.
abbrev pub destroy : {L : Type 0} → (Level → String → M L (Unit {0})) → LoggerStream L → Option L
destroy log_to s = elim s.log [
  | none ↦ none
  | some l ↦ if str_eq s.text "" then some l else some (log_to s.lvl s.text l).1
]
