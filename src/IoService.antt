-- ===== src/IoService.antt =====
-- The thread pool of src/apps/boost_io_service/boost_io_service.cpp: its threads, and the operations
-- start, reload and stop. The io_service itself, hardware_concurrency, thread creation and the
-- configuration are parameters.
pub mod Threads
use cpp_alls.Prelude.{
  ℕ, zero, suc, ◌+◌, ◌-◌, ◌*◌, List, [], ◌∷◌, ◌++◌, Option, none, some, Bool, true, false, ltb, leb,
  ◌==◌, if◌then◌else◌, length, M, Outcome, ok, throws, undefined, out_of_fuel, raise, pure, ◌>>=◌,
  ◌>>◌, continue_with,
}

-- What the operations take from outside. `create_thread n` is what the creation of a thread returns
-- or throws when the pool has made `n` of them already; `L` is the type of the loggers.
pub record Host : Type 0 where
  pub hardware_concurrency : ℕ
  pub create_thread : ℕ → Outcome (Unit {0})

-- The configuration of the application: `threads`, if it is a number, and what it is to look the
-- logger up.
pub record Config (L : Type 0) : Type 0 where
  pub threads : Option ℕ
  pub logger : Outcome L

-- `threads` are the indices of the threads that run, the newest last; `posted` is the number of the
-- empty tasks that reload has posted; `created` is how many threads have been made.
pub record Pool (L : Type 0) : Type 0 where
  pub required_threads_count : ℕ
  pub threads : List ℕ
  pub posted : ℕ
  pub created : ℕ
  pub has_work : Bool
  pub log : Option L

-- `std::numeric_limits<unsigned short>::max()`
abbrev pub threads_count_max : ℕ
threads_count_max = 65535

abbrev pub number_or_zero : Option ℕ → ℕ
number_or_zero none = 0
number_or_zero (some n) = n

-- `plumber_tasks_per_thread`
abbrev pub plumber_tasks_per_thread : ℕ
plumber_tasks_per_thread = 10

-- `while (required_threads_count_ > thread_index)`
abbrev pub goes_on : ℕ → ℕ → Bool
goes_on required thread_index = ltb thread_index required

-- One round of the loop of `run`: the count that it loads, and what run_one returns or throws.
pub record Round : Type 0 where
  pub required : ℕ
  pub run_one : Outcome ℕ

pub data Line : Type 0 where
  started_thread failed_task stopped_thread : Line

-- What follows run_one in a round: `next` is the rest of the loop.
abbrev pub run_task : Outcome ℕ → (List Line → Option (List Line)) → List Line → Option (List Line)
run_task (ok zero) next lines = some (lines ++ (stopped_thread ∷ []))
run_task (ok (suc n)) next lines = next lines
run_task (throws e) next lines = next (lines ++ (failed_task ∷ []))
run_task undefined next lines = none
run_task out_of_fuel next lines = none

-- The lines that the thread writes, with `none` if it has not ended after all the rounds.
pub run_loop : ℕ → List Round → List Line → Option (List Line)
run_loop thread_index [] lines = none
run_loop thread_index (r ∷ rounds) lines =
    let rest = run_task r.run_one (λ more. run_loop thread_index rounds more) lines in
    if goes_on r.required thread_index then rest else some (lines ++ (stopped_thread ∷ []))

pub run : ℕ → List Round → Option (List Line)
run thread_index rounds = run_loop thread_index rounds (started_thread ∷ [])

module _ {L : Type 0} where
  -- The constructor.
  abbrev pub idle : Pool L
  idle = record {
    required_threads_count = 0;
    threads = [];
    posted = 0;
    created = 0;
    has_work = false;
    log = none;
  }

  module _ (host : Host) where
    unfoldable pub get_threads_count : Config L → ℕ
    get_threads_count config =
        let asked = number_or_zero config.threads in
        let detected = if asked == 0 then host.hardware_concurrency else asked in
        let wanted = if detected == 0 then 2 else detected in
        if ltb threads_count_max wanted then threads_count_max else wanted

    abbrev pub add_thread : ℕ → Pool L → Pool L
    add_thread i s = record s { threads = s.threads ++ (i ∷ []); created = s.created + 1 }

    -- `count` rounds of the loop that creates threads, from the index `i` on.
    unfoldable pub create_threads : ℕ → ℕ → M (Pool L) (Unit {0})
    create_threads i zero = pure tt
    create_threads i (suc count) = do
      (λ s. (host.create_thread s.created, s))
      (λ s. (ok tt, add_thread i s))
      create_threads (i + 1) count

    -- The branches of reload on the number of threads: `old` before, `new` now.
    unfoldable pub adjust : ℕ → ℕ → M (Pool L) (Unit {0})
    adjust old new s =
        if ltb old new
        then create_threads old (new - old) s
        else if ltb new old
        then (ok tt, record s { posted = s.posted + plumber_tasks_per_thread * old })
        else (ok tt, s)

    unfoldable pub reload : Config L → M (Pool L) (Unit {0})
    reload config s =
        (do
          (λ s. (ok tt, record s { has_work = true }))
          log ← (λ s. (config.logger, s))
          (λ t. (
            ok tt,
            record t { log = some log; required_threads_count = get_threads_count config },
          ))
          adjust s.required_threads_count (get_threads_count config))
          s

    pub start : Config L → M (Pool L) (Unit {0})
    start config = reload config

  -- The threads end, and are joined, before stop returns.
  pub stop : Pool L → Pool L
  stop s = record s { has_work = false; required_threads_count = 0; threads = []; log = none }
