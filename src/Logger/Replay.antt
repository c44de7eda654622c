-- ===== src/Logger/Replay.antt =====
-- A delayed_logger that is reset, against a logger that was there from the start.
use mathlib.Core.List.{append_assoc, append-nil}
use cpp_alls.Prelude.{
  M, Outcome, ok, throws, undefined, out_of_fuel, continue_with, ◌⊎◌, ◌≢◌, ◌≡◌, refl, sym, ap, ◌∙◌,
  String, List, [], ◌∷◌, ◌++◌, arith, true, false, leb, Bool-cases, inl, inr, if◌then◌else◌,
}
use cpp_alls.Logger.{Level, rank, Sink, CppLogger, line, log, DelayedLogger}
use cpp_alls.Logger.Delayed
use cpp_alls.Logger.Delayed.{replay, reset}

-- Of a list of messages, the lines of those at or above the level, in order.
abbrev pub lines : Sink → Level → List (Level × String) → List (Sink × String)
lines sink lvl [] = []
lines sink lvl ((l, msg) ∷ rest) =
    if leb (rank lvl) (rank l)
    then (sink, line l msg) ∷ lines sink lvl rest
    else lines sink lvl rest

log_kept :
    (l : Level) (msg : String) (s : CppLogger)
    → leb (rank s.lvl) (rank l) ≡ true
    → log l msg s ≡ (ok tt, record s { output = s.output ++ ((s.logger, line l msg) ∷ []) })
unfolding log
log_kept l msg s h = ground (arith, h)

log_dropped :
    (l : Level) (msg : String) (s : CppLogger)
    → leb (rank s.lvl) (rank l) ≡ false
    → log l msg s ≡ (ok tt, s)
unfolding log
log_dropped l msg s h = ground (arith, h)

-- A cpp_logger writes the messages at or above its level, in order, and no others; its sink and
-- level stay, and nothing is thrown.
pub replay-lines :
    (records : List (Level × String)) (s : CppLogger)
    → replay log records s ≡ (ok tt, record s { output = s.output ++ lines s.logger s.lvl records })
replay-lines [] s = ap (λ l. (ok tt, record s { output = l })) (sym (append-nil s.output))
replay-lines ((l, msg) ∷ rest) s = elim (Bool-cases (leb (rank s.lvl) (rank l))) [
  | inl keep ↦
      ap (λ r. continue_with r (λ _. replay log rest)) (log_kept l msg s keep)
      ∙ replay-lines rest _
      ∙ ap (λ o. (ok tt, record s { output = o }))
          (append_assoc s.output ((s.logger, line l msg) ∷ []) (lines s.logger s.lvl rest))
      ∙ sym (rw keep refl)
  | inr drop_ ↦
      ap (λ r. continue_with r (λ _. replay log rest)) (log_dropped l msg s drop_)
      ∙ rw drop_ (replay-lines rest s)
]

delayed-records :
    (records : List (Level × String)) (d : DelayedLogger)
    → replay Delayed.log records d ≡ (ok tt, record { records = d.records ++ records })
unfolding Delayed.log
delayed-records [] d = ap (λ l. (ok tt, record { records = l })) (sym (append-nil d.records))
delayed-records ((l, msg) ∷ rest) d =
    delayed-records rest (record { records = d.records ++ ((l, msg) ∷ []) })
    ∙ ap (λ rs. (ok tt, record { records = rs })) (append_assoc d.records ((l, msg) ∷ []) rest)

module _ {L : Type 0} (log_on : Level → String → M L (Unit {0})) where
  -- The logger takes the messages up to one, on which its `log` ends otherwise.
  abbrev pub Stops : List (Level × String) → L → Outcome (Unit {0}) → L → Type 0
  Stops records l r v =
      (before : List (Level × String)) × (lvl : Level) × (msg : String) × (after : List
        (Level × String))
      × (u : L) × (records ≡ before ++ ((lvl, msg) ∷ after))
      × (replay log_on before l ≡ (ok tt, u))
      × (log_on lvl msg u ≡ (r, v))
      × (r ≢ ok tt)

  Outcome-cases :
      (q : Outcome (Unit {0}) × L)
      → (q ≡ (ok tt, q.1)) ⊎ ((q.0 ≢ ok tt) × ((f : M L (Unit {0})) → continue_with q (λ _. f) ≡ q))
  Outcome-cases (ok u, l) = inl refl
  Outcome-cases (throws e, l) = inr (λ h. cc h, λ f. refl)
  Outcome-cases (undefined, l) = inr (λ h. cc h, λ f. refl)
  Outcome-cases (out_of_fuel, l) = inr (λ h. cc h, λ f. refl)

  replay-cases :
      (records : List (Level × String)) (l : L)
      → ((v : L) × (replay log_on records l ≡ (ok tt, v)))
        ⊎ ((r : Outcome (Unit {0})) × (v : L) × (replay log_on records l ≡ (r, v))
            × Stops records l r v)
  replay-cases [] l = inl (l, refl)
  replay-cases ((lvl, msg) ∷ records) l = elim (Outcome-cases (log_on lvl msg l)) [
    | inr (not_, stays) ↦
        let q = log_on lvl msg l in
        inr (
          q.0,
          q.1,
          stays (replay log_on records),
          ([], lvl, msg, records, l, refl, refl, refl, not_),
        )
    | inl taken ↦
        let u = (log_on lvl msg l).1 in
        let first = ap (λ q. continue_with q (λ _. replay log_on records)) taken in
        elim (replay-cases records u) [
          | inl (v, done) ↦ inl (v, first ∙ done)
          | inr (r, v, done, (before, lvl', msg', after, w, split, taken', failed, not_)) ↦ inr (
            r,
            v,
            first ∙ done,
            (
              (lvl, msg) ∷ before,
              lvl',
              msg',
              after,
              w,
              ap (λ rs. (lvl, msg) ∷ rs) split,
              ap (λ q. continue_with q (λ _. replay log_on before)) taken ∙ taken',
              failed,
              not_,
            ),
          )
        ]
  ]

  Stops-fails :
      (records : List (Level × String)) (l : L) (r : Outcome (Unit {0})) (v : L)
      → Stops records l r v
      → r ≢ ok tt
  Stops-fails records l r v (before, lvl, msg, after, u, split, taken, failed, not_) = not_

  kept_failed : (r : Outcome (Unit {0})) → (d : DelayedLogger) → r ≢ ok tt → Delayed.kept r d ≡ d
  kept_failed (ok u) d n = absurd (n refl)
  kept_failed (throws e) d n = refl
  kept_failed undefined d n = refl
  kept_failed out_of_fuel d n = refl

  reset-cases :
      (records : List (Level × String)) (l : L) (d : DelayedLogger)
      → d ≡ record { records = records }
      → ((v : L) × (replay log_on records l ≡ (ok tt, v))
          × (reset log_on (d, l) ≡ (ok tt, (record { records = [] }, v))))
        ⊎ ((r : Outcome (Unit {0})) × (v : L) × Stops records l r v
            × (reset log_on (d, l) ≡ (r, (record { records = records }, v))))
  unfolding reset
  reset-cases records l d is = elim (replay-cases records l) [
    | inl (v, done) ↦ inl (
      v,
      done,
      ap (λ d. reset log_on (d, l)) is
          ∙ ap (λ r. (r.0, (Delayed.kept r.0 (record { records = records }), r.1))) done,
    )
    | inr (r, v, done, stops) ↦ inr (
      r,
      v,
      stops,
      ap (λ d. reset log_on (d, l)) is
          ∙ ap (λ r. (r.0, (Delayed.kept r.0 (record { records = records }), r.1))) done
          ∙ ap (λ d. (r, (d, v)))
              (kept_failed r (record { records = records }) (Stops-fails records l r v stops)),
    )
  ]

  -- A new delayed_logger that is given messages takes them all. When they are passed on by `reset` to
  -- any logger, either the logger takes them all, as if they had been logged to it, and none is kept;
  -- or its `log` ends otherwise on one of them, by an exception for example, and then `reset` ends in
  -- the same way, the logger has been given the messages up to that one, and all are kept, those
  -- that it took too.
  pub reset-delayed :
      (records : List (Level × String)) (l : L)
      → let (given, d) = replay Delayed.log records (record { records = [] }) in
        (given ≡ ok tt)
        × (((v : L) × (replay log_on records l ≡ (ok tt, v))
              × (reset log_on (d, l) ≡ (ok tt, (record { records = [] }, v))))
            ⊎ ((r : Outcome (Unit {0})) × (v : L) × Stops records l r v
                × (reset log_on (d, l) ≡ (r, (record { records = records }, v)))))
  reset-delayed records l =
      let given = delayed-records records (record { records = [] }) in
      (ap (λ q. q.0) given, reset-cases records l _ (ap (λ q. q.1) given))
