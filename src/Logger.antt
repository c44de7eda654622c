-- ===== src/Logger.antt =====
-- include/cppalls/api/logger.hpp, src/core/cpp_logger.cpp and the stream of logging.hpp.
pub mod Delayed
pub mod LoggerStream
pub mod Severity
pub mod Replay
pub mod Boost
use cpp_alls.Prelude.{
  ℕ, ◌≡◌, String, List, [], ◌∷◌, ◌++◌, Option, none, some, Bool, true, false, ◌||◌, leb, str_eq,
  if◌then◌else◌, M, Outcome, ok, pure, ◌>>=◌, ◌>>◌, continue_with,
}
use Prim.Native.String.{◌++◌ as text_append}

-- `severity_level`
pub data Level : Type 0 where
  trace debug info warning error fatal : Level

abbrev pub rank : Level → ℕ
rank trace = 0
rank debug = 1
rank info = 2
rank warning = 3
rank error = 4
rank fatal = 5

-- The stream that a cpp_logger writes to.
pub data Sink : Type 0 where
  cerr cout : Sink
  stream : ℕ → Sink

pub record CppLogger : Type 0 where
  pub logger : Sink
  pub lvl : Level
  pub output : List (Sink × String)

-- `static const char* severity(severity_level)`
unfoldable pub severity_name : Level → String
severity_name trace = "TRACE: "
severity_name debug = "DEBUG: "
severity_name info = "INFO:  "
severity_name warning = "WARN:  "
severity_name error = "ERROR: "
severity_name fatal = "FATAL: "

-- What `*logger_ << severity(lvl) << msg << '\n'` writes.
abbrev pub line : Level → String → String
line lvl msg = text_append (severity_name lvl) (text_append msg "\n")

-- `cpp_logger(std::ostream& logger = std::cerr)`
pub create : Sink → CppLogger
create sink = record { logger = sink; lvl = trace; output = [] }

pub log : Level → String → M CppLogger (Unit {0})
log lvl msg s =
    if leb (rank s.lvl) (rank lvl)
    then (ok tt, record s { output = s.output ++ ((s.logger, line lvl msg) ∷ []) })
    else (ok tt, s)

-- `severity_level severity(const std::string&)`, with its second test for "DEBUG".
pub severity : String → M CppLogger Level
severity sev =
    if str_eq sev "TRACE" || str_eq sev "trace"
    then pure trace
    else if str_eq sev "DEBUG" || str_eq sev "debug"
    then pure debug
    else if str_eq sev "INFO" || str_eq sev "info"
    then pure info
    else if str_eq sev "WARN" || str_eq sev "warn"
    then pure warning
    else if str_eq sev "ERROR" || str_eq sev "error"
    then pure error
    else if str_eq sev "DEBUG" || str_eq sev "debug"
    then pure fatal
    else (do
      log error (text_append "Unsupported severity level '" (text_append sev "'"))
      pure trace)

-- `config[key].as<std::string>(fallback)`, of the texts that the configuration has.
abbrev pub text_or : Option String → String → String
text_or (some t) fallback = t
text_or none fallback = fallback

abbrev set_logger : Sink → M CppLogger (Unit {0})
set_logger sink s = (ok tt, record s { logger = sink })

-- The first part of `start`.
pub choose_sink : String → M CppLogger (Unit {0})
choose_sink sink =
    if str_eq sink "cerr"
    then set_logger cerr
    else if str_eq sink "cout"
    then set_logger cout
    else log error
        (text_append "Unknown sink type '" (text_append sink "', using std::cerr as fallback"))

-- `lvl_ = severity(...)`
pub set_severity : String → M CppLogger (Unit {0})
set_severity sev = do lvl ← severity sev; (λ s. (ok tt, record s { lvl = lvl }))

pub start : (String → Option String) → M CppLogger (Unit {0})
start config = do
  choose_sink (text_or (config "sink") "cerr")
  set_severity (text_or (config "severity") "trace")

pub stop : CppLogger → CppLogger
stop s = s

-- `delayed_logger::records`
pub record DelayedLogger : Type 0 where
  pub records : List (Level × String)
