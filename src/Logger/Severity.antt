-- ===== src/Logger/Severity.antt =====
-- The levels that cpp_logger.cpp filters by and reads from a configuration.
use Prim.Native.String.{◌++◌ as text_append}
use cpp_alls.Prelude.{
  ◌≤◌, ◌≡◌, ◌≢◌, refl, ap, ◌∙◌, String, [], ◌∷◌, ◌++◌, arith, Bool, true, false, ◌||◌, str_eq,
  str_eq_iff, if◌then◌else◌, M, Outcome, ok, pure, ◌>>◌, Option, some,
}
use cpp_alls.Logger.{
  Level, trace, debug, info, warning, error, fatal, rank, CppLogger, log, severity, start, text_or,
  line, choose_sink, set_severity,
}

-- The level in a result.
abbrev level_of : Outcome Level → Level
level_of (ok l) = l
level_of _ = trace

-- The action returns a level up to ERROR, and leaves the sink.
abbrev ReturnsLow : CppLogger → M CppLogger Level → Type 0
ReturnsLow s m =
    let (r, t) = m s in (r ≡ ok (level_of r)) × (rank (level_of r) ≤ 4) × (t.logger ≡ s.logger)

unsupported_ok : (s : CppLogger) (msg : String) → ReturnsLow s (log error msg >> pure trace)
unfolding log
unsupported_ok s msg = ground arith

-- The chain of tests of `severity`, by the outcomes of its five different tests.
abbrev chain : Bool → Bool → Bool → Bool → Bool → M CppLogger Level → M CppLogger Level
chain t d i w e last =
    if t
    then pure trace
    else if d
    then pure debug
    else if i
    then pure info
    else if w
    then pure warning
    else if e
    then pure error
    else if d
    then pure fatal
    else last

chain_ok :
    (s : CppLogger) (t d i w e : Bool) (last : M CppLogger Level)
    → ReturnsLow s last
    → ReturnsLow s (chain t d i w e last)
chain_ok s true d i w e last h = (refl, omega arith, refl)
chain_ok s false true i w e last h = (refl, omega arith, refl)
chain_ok s false false true w e last h = (refl, omega arith, refl)
chain_ok s false false false true e last h = (refl, omega arith, refl)
chain_ok s false false false false true last h = (refl, omega arith, refl)
chain_ok s false false false false false last h = h

severity_ok : (sev : String) (s : CppLogger) → ReturnsLow s (severity sev)
unfolding severity
severity_ok sev s =
    chain_ok s (spelled "TRACE" "trace") (spelled "DEBUG" "debug") (spelled "INFO" "info")
      (spelled "WARN" "warn") (spelled "ERROR" "error") (log error text >> pure trace)
      (unsupported_ok s text)
  where
    spelled : String → String → Bool
    spelled upper lower = str_eq sev upper || str_eq sev lower

    text : String
    text = text_append "Unsupported severity level '" (text_append sev "'")

-- No text in a configuration stands for the level FATAL: `severity` returns another one always.
pub severity-ne-fatal : (sev : String) (s : CppLogger) → (severity sev s).0 ≢ ok fatal
severity-ne-fatal sev s h =
    let (_, low, _) = severity_ok sev s in
    absurd (omega (arith, low, ap (λ r. rank (level_of r)) h))

set_severity_ok :
    (sev : String) (s : CppLogger)
    → let (r, t) = set_severity sev s in (r ≡ ok tt) × (rank t.lvl ≤ 4) × (t.logger ≡ s.logger)
unfolding set_severity
set_severity_ok sev s = ground (arith, severity_ok sev s)

choose_sink_ok : (sink : String) (s : CppLogger) → (choose_sink sink s).0 ≡ ok tt
unfolding choose_sink log
choose_sink_ok sink s = ground arith

choose_sink_unknown :
    (sink : String) (s : CppLogger)
    → sink ≢ "cerr"
    → sink ≢ "cout"
    → (choose_sink sink s).1.logger ≡ s.logger
unfolding choose_sink log
choose_sink_unknown sink s h k = ground (arith, str_eq_iff sink "cerr", str_eq_iff sink "cout")

-- `start` after its first part.
start_steps :
    (config : String → Option String) (s : CppLogger)
    → start config s
      ≡ set_severity
          (text_or (config "severity") "trace")
          (choose_sink (text_or (config "sink") "cerr") s).1
unfolding start
start_steps config s = ground (arith, choose_sink_ok (text_or (config "sink") "cerr") s)

log_above :
    (s : CppLogger) (lvl : Level) (msg : String)
    → rank s.lvl ≤ rank lvl
    → (log lvl msg s).1.output ≡ s.output ++ ((s.logger, line lvl msg) ∷ [])
unfolding log
log_above s lvl msg h = ground arith

-- `start` returns on every configuration, and afterwards every message at ERROR or FATAL is
-- written, to the logger's sink and after what was written before: no configuration silences them.
pub start-log_error :
    (config : String → Option String) (s : CppLogger) (msg : String)
    → let (r, t) = start config s in
      (r ≡ ok tt)
      × ((log error msg t).1.output ≡ t.output ++ ((t.logger, line error msg) ∷ []))
      × ((log fatal msg t).1.output ≡ t.output ++ ((t.logger, line fatal msg) ∷ []))
start-log_error config s msg =
    let chosen = (choose_sink (text_or (config "sink") "cerr") s).1 in
    let (r, low, _) = set_severity_ok (text_or (config "severity") "trace") chosen in
    rw (start_steps config s)
      (r, log_above _ error msg low, log_above _ fatal msg (omega (arith, low)))

-- With a sink that is neither "cerr" nor "cout" a logger goes on writing where it wrote before,
-- though its message says that it falls back to `std::cerr`.
pub start_unknown_sink :
    (config : String → Option String) (s : CppLogger) (sink : String)
    → config "sink" ≡ some sink
    → sink ≢ "cerr"
    → sink ≢ "cout"
    → (start config s).1.logger ≡ s.logger
start_unknown_sink config s sink e h k =
    ap (λ r. r.1.logger) (start_steps config s)
    ∙ (set_severity_ok (text_or (config "severity") "trace") _).2
    ∙ ap (λ o. (choose_sink (text_or o "cerr") s).1.logger) e
    ∙ choose_sink_unknown sink s h k
