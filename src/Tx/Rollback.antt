-- ===== src/Tx/Rollback.antt =====
-- src/picotm_tx.c: picotm_tx_rollback(), and what it restores.
use picotm.Prelude.{
  Option, ◌≡◌, refl, ◌∙◌, false, inl, inr, some, List, [], ◌∷◌, ◌++◌, map, reverse, reverse-cons,
  arith, Bool-cases, if◌then◌else◌,
}
use picotm.Error.{Error, is_set}
use picotm.Module.{Run, failed, module_undo}
use picotm.Event.{Event, events_foreach1}
use picotm.Event.Order.{rev_foreach-foreach, foreach-append}
use picotm.Log.{log_events}
use picotm.Os.{PthreadRwlock}
use picotm.Tx.{Tx, tx_rollback, undo_event, undo_events, mark, tx_release_irrevocability}
use picotm.Tx.Calls.{
  run_calls, run_calls-append, foreach-run_calls, finish_modules-run_calls, undo_modules-run_calls,
}
use picotm.Tx.Commit.{finish_calls, cleared}

module _ {S : Type 0} where
  abbrev pub module_undo_calls : Tx S → List (Run S → Run S)
  module_undo_calls self = map module_undo self.modules

  -- The events are undone against the order of the log.
  abbrev pub event_undo_calls : Tx S → List (Run S → Run S)
  event_undo_calls self = map (λ e. undo_event e self.modules) (reverse (log_events self.log))

  abbrev pub undo_calls : Tx S → List (Run S → Run S)
  undo_calls self = module_undo_calls self ++ (event_undo_calls self ++ finish_calls self)

module _ {S : Type 0} (self : Tx S) (r : Run S) where
  abbrev after_undo : Run S
  after_undo = run_calls (module_undo_calls self) r

  abbrev after_events : Run S
  after_events = run_calls (event_undo_calls self) after_undo

  abbrev after_finish : Run S
  after_finish = run_calls (finish_calls self) after_events

  undo_calls-stages :
      failed r ≡ false
      → run_calls (undo_calls self) r ≡ (
          if failed after_undo
          then after_undo
          else if failed after_events
          then after_events
          else after_finish)
  undo_calls-stages ok =
      run_calls-append (module_undo_calls self) (event_undo_calls self ++ finish_calls self) r ok
      ∙ (elim (Bool-cases (failed after_undo)) [
        | inl bad ↦ rw bad
        | inr good ↦
            rw (good, run_calls-append (event_undo_calls self) (finish_calls self) after_undo good)
      ])

module _ {S : Type 0} (lock : PthreadRwlock S) (self : Tx S) (r : Run S) where
  rollback-stages : tx_rollback lock self r ≡ (
      if failed (after_undo self r)
      then some (tx_release_irrevocability lock self (mark (after_undo self r)))
      else if failed (after_events self r)
      then some (tx_release_irrevocability lock (cleared self) (mark (after_events self r)))
      else if failed (after_finish self r)
      then some (tx_release_irrevocability lock (cleared self) (mark (after_finish self r)))
      else some (tx_release_irrevocability lock (cleared self) (after_finish self r)))
  unfolding tx_rollback undo_events
  rollback-stages = rw undo_modules-run_calls (elim (Bool-cases (failed (after_undo self r))) [
    | inl bad ↦ rw bad
    | inr good ↦
        rw
          (
            good,
            rev_foreach-foreach self.modules undo_event (log_events self.log) (after_undo self r),
            foreach-run_calls undo_event self.modules (reverse (log_events self.log))
                (after_undo self r) good,
            finish_modules-run_calls self.modules (after_events self r),
          )
          refl
  ])

  -- From a state without an error, a rollback always comes to an end and releases irrevocability. It makes
  -- these calls, up to the first that fails: the modules' undo, the events' undo against the order of the
  -- log, the modules' finish. If one fails, the error is marked as non-recoverable. The log is empty unless
  -- a module's undo has failed.
  pub tx_rollback_lem :
      failed r ≡ false
      → tx_rollback lock self r
        ≡ some (
            tx_release_irrevocability lock
              (if failed (run_calls (module_undo_calls self) r) then self else cleared self)
              (if failed (run_calls (undo_calls self) r)
                then mark (run_calls (undo_calls self) r)
                else run_calls (undo_calls self) r))
  tx_rollback_lem ok =
      rw (rollback-stages, undo_calls-stages self r ok)
        (stages (after_undo self r) (after_events self r) (after_finish self r))
    where
      stages :
          (a b c : Run S)
          → ◌≡◌ {A = Option (Tx S × Run S)}
              (if failed a
                then some (tx_release_irrevocability lock self (mark a))
                else if failed b
                then some (tx_release_irrevocability lock (cleared self) (mark b))
                else if failed c
                then some (tx_release_irrevocability lock (cleared self) (mark c))
                else some (tx_release_irrevocability lock (cleared self) c))
              (some (
                tx_release_irrevocability lock (if failed a then self else cleared self) (
                  if failed (if failed a then a else if failed b then b else c)
                  then mark (if failed a then a else if failed b then b else c)
                  else (if failed a then a else if failed b then b else c))))
      stages a b c = ground arith

-- What the events of a log have done to the world, in order.
abbrev pub exec_events : {S : Type 0} → (Event → S → S) → List Event → S → S
exec_events exec [] s = s
exec_events exec (e ∷ es) s = exec_events exec es (exec e s)

module _ {S : Type 0} (lock : PthreadRwlock S) (self : Tx S) (exec : Event → S → S) (e : Error)
    (s : S) (clean : is_set e ≡ false)
    (inverse : (ev : Event) (w : S)
      → undo_event ev self.modules (record { world = exec ev w; error = e })
        ≡ record { world = w; error = e }) where
  undo-exec :
      (es : List Event) (w : S)
      → events_foreach1
          (reverse es)
          self.modules
          undo_event
          (record { world = exec_events exec es w; error = e })
        ≡ record { world = w; error = e }
  unfolding events_foreach1
  undo-exec [] w = refl
  undo-exec (x ∷ es) w =
      rw
        (
          reverse-cons,
          foreach-append self.modules undo_event (reverse es) (x ∷ []),
          undo-exec es (exec x w),
          not_failed (exec x w),
          inverse x w,
        )
        refl
    where
      not_failed : (q : S) → failed (record { world = q; error = e }) ≡ false
      not_failed q = unfold failed is_set in clean

  -- Let each module's undo of an event take back what the event did, let the modules' undo do nothing,
  -- let the modules finish without an error, and let the world be as the events of the log have made it. Then a rollback restores the world from
  -- before the events, finishes the modules there, empties the log and releases irrevocability.
  pub rollback-exec :
      ((q : Run S) → run_calls (module_undo_calls self) q ≡ q)
      → failed (run_calls (finish_calls self) (record { world = s; error = e })) ≡ false
      → tx_rollback lock self
          (record { world = exec_events exec (log_events self.log) s; error = e })
        ≡ some (
            tx_release_irrevocability lock
              (cleared self)
              (run_calls (finish_calls self) (record { world = s; error = e })))
  unfolding tx_rollback undo_events
  rollback-exec idle ok =
      rw
        (
          undo_modules-run_calls,
          idle,
          not_failed (exec_events exec (log_events self.log) s),
          rev_foreach-foreach self.modules undo_event (log_events self.log),
          undo-exec (log_events self.log) s,
          not_failed s,
          finish_modules-run_calls self.modules (record { world = s; error = e }),
          ok,
        )
        refl
    where
      not_failed : (q : S) → failed (record { world = q; error = e }) ≡ false
      not_failed q = unfold failed is_set in clean
