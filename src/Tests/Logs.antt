-- ===== src/Tests/Logs.antt =====
-- The loggers on short histories.
use cpp_alls.Prelude.{
  ◌≡◌, ◌⊎◌, M, Outcome, String, List, [], ◌∷◌, ◌++◌, Option, some, ok, throws, system_error, str_eq,
  if◌then◌else◌,
}
use cpp_alls.Logger.{Level, info, error, fatal, stream, CppLogger, line, severity_name, log, start}
use cpp_alls.Logger.Delayed
use cpp_alls.Logger.Delayed.{replay, reset}
use cpp_alls.Logger.Severity.{start-log_error}
use cpp_alls.Logger.Replay.{Stops, replay-lines, reset-delayed}

abbrev to_file : String → Option String
to_file key = if str_eq key "sink" then some "file" else some "FATAL"

abbrev on_five : CppLogger
on_five = record { logger = stream 5; lvl = error; output = [] }

abbrev two_records : List (Level × String)
two_records = (info, "up") ∷ (fatal, "down") ∷ []

start-log_error_example :
    let (r, t) = start to_file on_five in
    (r ≡ ok tt)
    × ((log error "down" t).1.output ≡ t.output ++ ((t.logger, line error "down") ∷ []))
    × ((log fatal "down" t).1.output ≡ t.output ++ ((t.logger, line fatal "down") ∷ []))
start-log_error_example = start-log_error to_file on_five "down"

-- A logger that has room for one message.
abbrev small : Level → String → M (List String) (Unit {0})
small lvl msg [] = (ok tt, msg ∷ [])
small lvl msg (m ∷ ms) = (throws system_error, m ∷ ms)

replay-lines_example :
    replay log two_records on_five
    ≡ (ok tt, record { logger = stream 5; lvl = error; output = (stream 5, "FATAL: down\n") ∷ [] })
unfolding severity_name
replay-lines_example = replay-lines two_records on_five

reset-small :
    reset small (record { records = two_records }, [])
    ≡ (throws system_error, (record { records = two_records }, "up" ∷ []))
unfolding reset
reset-small = λ i. (throws system_error, (record { records = two_records }, "up" ∷ []))

reset-delayed_example :
    let (given, d) = replay Delayed.log two_records (record { records = [] }) in
    (given ≡ ok tt)
    × (((v : List String) × (replay small two_records [] ≡ (ok tt, v))
          × (reset small (d, []) ≡ (ok tt, (record { records = [] }, v))))
        ⊎ ((r : Outcome (Unit {0})) × (v : List String) × Stops small two_records [] r v
            × (reset small (d, []) ≡ (r, (record { records = two_records }, v)))))
reset-delayed_example = reset-delayed small two_records []
