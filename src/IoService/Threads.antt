-- ===== src/IoService/Threads.antt =====
-- The threads of the pool through any sequence of calls of reload and stop, with threads that end
-- at any moment in between.
use cpp_alls.Prelude.{
  ℕ, zero, suc, ◌+◌, ◌-◌, ◌≤◌, ◌<◌, ◌≡◌, refl, sym, ap, ◌∙◌, List, [], ◌∷◌, ◌++◌, Option, some,
  Bool, true, false, ltb, leb, ◌==◌, ◌⊎◌, if◌then◌else◌, length, length-append, min, Outcome, ok,
  throws, undefined, out_of_fuel, continue_with, arith,
}
use mathlib.Core.List.{append_assoc, append-nil}
use cpp_alls.IoService.{
  Host, Config, Pool, idle, threads_count_max, number_or_zero, goes_on, get_threads_count,
  add_thread, create_threads, adjust, reload, stop,
}

-- Whether a thread with that index runs.
abbrev pub has : ℕ → List ℕ → Bool
has i [] = false
has i (j ∷ threads) = if j == i then true else has i threads

has_add : (i : ℕ) (xs ys : List ℕ) → has i (xs ++ ys) ≡ (if has i xs then true else has i ys)
has_add i [] ys = refl
has_add i (x ∷ xs) ys = ground (arith, has_add i xs ys)

-- The indices `i`, `i + 1`, ... of `count` threads.
abbrev pub indices : ℕ → ℕ → List ℕ
indices i zero = []
indices i (suc count) = i ∷ indices (i + 1) count

has-indices :
    (k i count : ℕ) → has k (indices i count) ≡ (if leb i k then ltb k (i + count) else false)
has-indices k i zero = ground arith
has-indices k i (suc count) = ground (arith, has-indices k (i + 1) count)

length-indices : (i count : ℕ) → length (indices i count) ≡ count
length-indices i zero = refl
length-indices i (suc count) = ground (arith, length-indices (i + 1) count)

no_indices : (old new : ℕ) (xs : List ℕ) → new ≤ old → xs ++ indices old (new - old) ≡ xs
no_indices old new xs h =
    let none_left : new - old ≡ 0 = omega arith in
    ap (λ n. xs ++ indices old n) none_left ∙ append-nil xs

module _ {L : Type 0} (host : Host) where
  -- A thread ends only in a round that finds the required count too low for it.
  pub data Step : Pool L → Pool L → Type 0 where
    reloads : (config : Config L) (s : Pool L) → Step s (reload host config s).1
    stops : (s : Pool L) → Step s (stop s)
    leaves :
        (s : Pool L) (i : ℕ) (before after : List ℕ)
        → s.threads ≡ before ++ (i ∷ after)
        → goes_on s.required_threads_count i ≡ false
        → Step s (record s { threads = before ++ after })

  pub data Reachable : Pool L → Type 0 where
    begin : Reachable idle
    next : {s t : Pool L} → Reachable s → Step s t → Reachable t

  -- The result is between 1 and the largest `unsigned short`. A number in the configuration that is
  -- not zero is taken as it is, or as that largest one if it is larger.
  pub get_threads_count-bounds :
      (config : Config L)
      → (1 ≤ get_threads_count host config)
        × (get_threads_count host config ≤ threads_count_max)
        × ((number_or_zero config.threads ≡ 0)
            ⊎ (get_threads_count host config
                ≡ min (number_or_zero config.threads) threads_count_max))
  unfolding get_threads_count
  get_threads_count-bounds config = (ground arith, ground arith, ground arith)

  module _ (ready : (n : ℕ) → host.create_thread n ≡ ok tt) where
    create_threads-suc :
        (i count : ℕ) (s : Pool L)
        → create_threads host i (suc count) s
          ≡ create_threads host (i + 1) count (add_thread host i s)
    unfolding create_threads
    create_threads-suc i count s =
        ap
          (λ r.
            continue_with (r, s) (λ _ s. create_threads host (i + 1) count (add_thread host i s)))
          (ready s.created)

    create_threads-threads :
        (i count : ℕ) (s : Pool L)
        → (create_threads host i count s).1.threads ≡ s.threads ++ indices i count
    unfolding create_threads
    create_threads-threads i zero s = sym (append-nil s.threads)
    create_threads-threads i (suc count) s =
        ap (λ r. Pool.threads r.1) (create_threads-suc i count s)
        ∙ create_threads-threads (i + 1) count (add_thread host i s)
        ∙ append_assoc s.threads (i ∷ []) (indices (i + 1) count)

    create_threads-required :
        (i count : ℕ) (s : Pool L)
        → (create_threads host i count s).1.required_threads_count ≡ s.required_threads_count
    unfolding create_threads
    create_threads-required i zero s = refl
    create_threads-required i (suc count) s =
        ap (λ r. Pool.required_threads_count r.1) (create_threads-suc i count s)
        ∙ create_threads-required (i + 1) count (add_thread host i s)

    -- Reload adds the threads that are missing, if the count grows.
    adjust-threads :
        (old new : ℕ) (s : Pool L)
        → (adjust host old new s).1.threads ≡ s.threads ++ indices old (new - old)
    unfolding adjust
    adjust-threads old new s =
        ground (arith, create_threads-threads old (new - old) s, no_indices old new s.threads)

    adjust-required :
        (old new : ℕ) (s : Pool L)
        → (adjust host old new s).1.required_threads_count ≡ s.required_threads_count
    unfolding adjust
    adjust-required old new s = ground (arith, create_threads-required old (new - old) s)

    -- A configuration whose logger is found.
    abbrev pub logging : Option ℕ → L → Config L
    logging threads log = record { threads = threads; logger = ok log }

    reload-threads :
        (threads : Option ℕ) (log : L) (s : Pool L)
        → (reload host (logging threads log) s).1.threads
          ≡ s.threads
            ++ indices s.required_threads_count
                (get_threads_count host (logging threads log) - s.required_threads_count)
    unfolding reload
    reload-threads threads log s =
        let new = get_threads_count host (logging threads log) in
        adjust-threads s.required_threads_count new
          (record s { has_work = true; log = some log; required_threads_count = new })

    reload-required :
        (threads : Option ℕ) (log : L) (s : Pool L)
        → (reload host (logging threads log) s).1.required_threads_count
          ≡ get_threads_count host (logging threads log)
    unfolding reload
    reload-required threads log s =
        let new = get_threads_count host (logging threads log) in
        adjust-required s.required_threads_count new
          (record s { has_work = true; log = some log; required_threads_count = new })

    -- A reload either cannot look its logger up, and leaves the threads and their count alone, or
    -- sets the count and adds the threads that are missing.
    data Reloaded (config : Config L) (s t : Pool L) : Type 0 where
      same :
          t.threads ≡ s.threads
          → t.required_threads_count ≡ s.required_threads_count
          → Reloaded config s t
      more :
          t.threads
            ≡ s.threads
              ++ indices s.required_threads_count
                  (get_threads_count host config - s.required_threads_count)
          → t.required_threads_count ≡ get_threads_count host config
          → Reloaded config s t

    reload-Reloaded :
        (threads : Option ℕ) (logger : Outcome L) (s : Pool L)
        → Reloaded
            (record { threads = threads; logger = logger })
            s
            (reload host (record { threads = threads; logger = logger }) s).1
    unfolding reload
    reload-Reloaded threads (ok log) s =
        more (reload-threads threads log s) (reload-required threads log s)
    reload-Reloaded threads (throws e) s = same refl refl
    reload-Reloaded threads undefined s = same refl refl
    reload-Reloaded threads out_of_fuel s = same refl refl

    -- Each index below the required count is that of a thread that runs.
    abbrev Staffed : Pool L → Type 0
    Staffed s = (i : ℕ) → i < s.required_threads_count → has i s.threads ≡ true

    Reloaded-Staffed :
        (config : Config L) (s t : Pool L) → Reloaded config s t → Staffed s → Staffed t
    Reloaded-Staffed config s t (same e f) h i low =
        let low_before : i < s.required_threads_count = omega arith in ap (has i) e ∙ h i low_before
    Reloaded-Staffed config s t (more e f) h i low =
        let old = s.required_threads_count in
        let new = get_threads_count host config in
        ground (
          arith,
          e,
          f,
          h i,
          has_add i s.threads (indices old (new - old)),
          has-indices i old (new - old),
        )

    Step-Staffed : {s t : Pool L} → Step s t → Staffed s → Staffed t
    unfolding stop
    Step-Staffed (reloads config s) h =
        Reloaded-Staffed config s (reload host config s).1
          (reload-Reloaded config.threads config.logger s) h
    Step-Staffed (stops s) h = λ i low. absurd (omega arith)
    Step-Staffed (leaves s j before after e f) h = λ i low.
        ground
          (arith, ap (has i) e, h i low, has_add i before (j ∷ after), has_add i before after, f)

    -- If no thread creation fails: whatever reloads and stops have been made, and whenever threads
    -- have ended in between, each index below the required count is that of a thread that runs.
    pub Reachable-Staffed :
        {s : Pool L} → Reachable s → (i : ℕ) → i < s.required_threads_count → has i s.threads ≡ true
    Reachable-Staffed begin = λ i low. absurd (omega arith)
    Reachable-Staffed (next r step) = Step-Staffed step (Reachable-Staffed r)

    -- If no thread creation fails: a reload to fewer threads and one back to as many as before, with
    -- no thread ending in between, leave more threads than before, by as many as the count was
    -- lower.
    pub reload_back-length :
        (down up : Option ℕ) (log : L) (s : Pool L)
        → s.required_threads_count ≡ get_threads_count host (logging up log)
        → get_threads_count host (logging down log) ≤ get_threads_count host (logging up log)
        → length (reload host (logging up log) (reload host (logging down log) s).1).1.threads
          ≡ length s.threads
            + (get_threads_count host (logging up log) - get_threads_count host (logging down log))
    reload_back-length down up log s before fewer =
        let low = get_threads_count host (logging down log) in
        let high = get_threads_count host (logging up log) in
        let not_more : low ≤ s.required_threads_count = omega arith in
        let t = (reload host (logging down log) s).1 in
        let kept =
          reload-threads down log s ∙ no_indices s.required_threads_count low s.threads not_more in
        ap length (reload-threads up log t)
        ∙ ap (λ n. length (t.threads ++ indices n (high - n))) (reload-required down log s)
        ∙ length-append t.threads (indices low (high - low))
        ∙ ap (λ xs. length xs + length (indices low (high - low))) kept
        ∙ ap (λ n. length s.threads + n) (length-indices low (high - low))
