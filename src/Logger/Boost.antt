-- ===== src/Logger/Boost.antt =====
-- src/apps/boost_logger/boost_logger.cpp: loggers that write through Boost.Log, and the settings that
-- are given to it as text.
use cpp_alls.Prelude.{
  ℕ, ◌==◌, if◌then◌else◌, lift, String, ◌≡◌, refl, List, [], ◌∷◌, ◌++◌, Option, none, some, M,
  Outcome, ok, pure, ◌>>=◌, ◌>>◌, continue_with,
}
use Prim.Native.String.{◌++◌ as text_append}
use cpp_alls.Logger.{Level, rank, trace, debug, info, warning, error, fatal}

-- `operator <<` of a severity.
pub severity_text : Level → String
severity_text trace = "TRACE"
severity_text debug = "DEBUG"
severity_text info = "INFO "
severity_text warning = "WARN "
severity_text error = "ERROR"
severity_text fatal = "FATAL"

-- What yaml-cpp and Boost.Log do: `config[key]`, the pairs of a map, `as<std::string>()`, and what
-- init_from_stream returns or throws for a text.
pub record Env : Type 1 where
  pub Node : Type 0
  pub field : Node → String → Option Node
  pub pairs : Node → List (Node × Node)
  pub as_text : Node → Outcome String
  pub init_from_stream : String → Outcome (Unit {0})

-- What a boost_logger writes: the severity, the message and the logger's tags.
pub record Record : Type 0 where
  pub severity : Level
  pub message : String
  pub tags : List String

pub record BoostLogger : Type 0 where
  pub tags : List String
  pub records : List Record

-- Text is appended to the stream.
abbrev pub put : String → M String (Unit {0})
put text oss = (ok tt, text_append oss text)

module _ (env : Env) where
  open env use {Node}

  pub start_helper : List (Node × Node) → M String (Unit {0})
  start_helper [] = pure tt
  start_helper ((key, value) ∷ rest) = do
    name ← lift (env.as_text key)
    put name
    put " = \""
    text ← lift (env.as_text value)
    put text
    put "\"\n"
    start_helper rest

  abbrev pub put_core : Option Node → M String (Unit {0})
  put_core none = pure tt
  put_core (some core) = do put "[Core]\n"; start_helper (env.pairs core)

  abbrev pub put_sinks : List (Node × Node) → M String (Unit {0})
  put_sinks [] = pure tt
  put_sinks ((name, sink) ∷ rest) = do
    text ← lift (env.as_text name)
    put "\n[Sinks."
    put text
    put "]\n"
    start_helper (env.pairs sink)
    put_sinks rest

  abbrev pub put_sinks_if : Option Node → M String (Unit {0})
  put_sinks_if none = pure tt
  put_sinks_if (some sinks) = put_sinks (env.pairs sinks)

  -- `boost_logger_core::start`
  pub start_core : Node → Outcome (Unit {0})
  start_core config =
      let r = (do put_core (env.field config "Core"); put_sinks_if (env.field config "Sinks")) "" in
      (continue_with r (λ _ oss. (env.init_from_stream oss, oss))).0

  abbrev pub add_tag : Option Node → M BoostLogger (Unit {0})
  add_tag none = pure tt
  add_tag (some n) = do
    tag ← lift (env.as_text n)
    (λ s. (ok tt, record s { tags = s.tags ++ (tag ∷ []) }))

  -- `boost_logger::start`
  pub start : Node → M BoostLogger (Unit {0})
  start config = add_tag (env.field config "tag")

-- `boost_logger::log`
pub log : Level → String → M BoostLogger (Unit {0})
log lvl msg s = (
  ok tt,
  record s {
    records = s.records ++ (record { severity = lvl; message = msg; tags = s.tags } ∷ []);
  },
)

-- `operator >>` of a severity, from the number that the stream reads, if it reads one: where there is
-- none, `strm >> n` sets `n` to 0. A number of no severity is cast to one that is none.
pub read_severity : Option ℕ → Option Level
read_severity none = some trace
read_severity (some n) =
    if n == 0
    then some trace
    else if n == 1
    then some debug
    else if n == 2
    then some info
    else if n == 3
    then some warning
    else if n == 4
    then some error
    else if n == 5
    then some fatal
    else none

-- A severity is read back from its number.
pub read_severity-rank : (lvl : Level) → read_severity (some (rank lvl)) ≡ some lvl
unfolding read_severity
read_severity-rank trace = refl
read_severity-rank debug = refl
read_severity-rank info = refl
read_severity-rank warning = refl
read_severity-rank error = refl
read_severity-rank fatal = refl
