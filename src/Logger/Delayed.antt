-- ===== src/Logger/Delayed.antt =====
-- delayed_logger of cpp_logger.cpp, which keeps what is logged before a logger is configured.
use cpp_alls.Prelude.{List, [], ◌∷◌, ◌++◌, String, M, Outcome, ok, pure, ◌>>◌}
use cpp_alls.Logger.{Level, CppLogger, Sink, cerr, DelayedLogger}
use cpp_alls.Logger

unfoldable pub log : Level → String → M DelayedLogger (Unit {0})
log lvl msg d = (ok tt, record { records = d.records ++ ((lvl, msg) ∷ []) })

-- `for (auto&& rec : records) l.log(rec.first, rec.second.c_str());`, for any logger, whose `log` may
-- throw.
abbrev pub replay :
    {L : Type 0} → (Level → String → M L (Unit {0})) → List (Level × String) → M L (Unit {0})
replay log_to [] = pure tt
replay log_to ((lvl, msg) ∷ records) = log_to lvl msg >> replay log_to records

-- What is kept after the loop, which an exception leaves before `records.clear()`.
abbrev pub kept : Outcome (Unit {0}) → DelayedLogger → DelayedLogger
kept (ok u) d = record { records = [] }
kept _ d = d

unfoldable pub reset :
    {L : Type 0} → (Level → String → M L (Unit {0})) → M (DelayedLogger × L) (Unit {0})
reset log_to (d, l) = let r = replay log_to d.records l in (r.0, (kept r.0 d, r.1))

-- The destructor writes what is left to `std::cerr`.
pub destroy : DelayedLogger → CppLogger
destroy d = (reset Logger.log (d, Logger.create cerr)).1.1
