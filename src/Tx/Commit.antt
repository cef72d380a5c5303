-- ===== src/Tx/Commit.antt =====
-- src/picotm_tx.c: picotm_tx_commit(), on each of its paths.
use picotm.Prelude.{
  ◌≡◌, refl, ◌∙◌, true, false, inl, inr, Option, some, List, ◌++◌, map, arith, Bool-cases,
  if◌then◌else◌,
}
use picotm.Module.{Run, failed, module_prepare_commit, module_apply, module_finish}
use picotm.Log.{log_clear, log_events}
use picotm.Os.{PthreadRwlock}
use picotm.Tx.{
  Tx, tx_commit, tx_is_irrevocable, apply_event, apply_events, mark, tx_release_irrevocability,
}
use picotm.Tx.Calls.{
  run_calls, run_calls-append, foreach-run_calls, finish_modules-run_calls, apply_modules-run_calls,
  prepare_commit_modules-run_calls,
}

module _ {S : Type 0} where
  -- The calls before the point of no return.
  abbrev pub prepare_calls : Tx S → List (Run S → Run S)
  prepare_calls self = map (λ m. module_prepare_commit m (tx_is_irrevocable self)) self.modules

  abbrev pub module_apply_calls : Tx S → List (Run S → Run S)
  module_apply_calls self = map module_apply self.modules

  -- The events are applied in the order of the log.
  abbrev pub event_apply_calls : Tx S → List (Run S → Run S)
  event_apply_calls self = map (λ e. apply_event e self.modules) (log_events self.log)

  abbrev pub finish_calls : Tx S → List (Run S → Run S)
  finish_calls self = map module_finish self.modules

  -- The calls behind the point of no return.
  abbrev pub apply_calls : Tx S → List (Run S → Run S)
  apply_calls self = module_apply_calls self ++ (event_apply_calls self ++ finish_calls self)

  abbrev pub cleared : Tx S → Tx S
  cleared self = record self { log = log_clear self.log }

-- The states that the calls pass through.
module _ {S : Type 0} (self : Tx S) (r : Run S) where
  abbrev pub prepared : Run S
  prepared = run_calls (prepare_calls self) r

  abbrev after_apply : Run S
  after_apply = run_calls (module_apply_calls self) prepared

  abbrev after_events : Run S
  after_events = run_calls (event_apply_calls self) after_apply

  abbrev after_finish : Run S
  after_finish = run_calls (finish_calls self) after_events

  apply_calls-stages :
      failed prepared ≡ false
      → run_calls (apply_calls self) prepared ≡ (
          if failed after_apply
          then after_apply
          else if failed after_events
          then after_events
          else after_finish)
  apply_calls-stages ok =
      run_calls-append (module_apply_calls self) (event_apply_calls self ++ finish_calls self)
        prepared ok
      ∙ (elim (Bool-cases (failed after_apply)) [
        | inl bad ↦ rw bad
        | inr good ↦
            rw
              (good, run_calls-append (event_apply_calls self) (finish_calls self) after_apply good)
      ])

module _ {S : Type 0} (lock : PthreadRwlock S) (self : Tx S) (r : Run S) where
  commit-stages :
      failed (prepared self r) ≡ false
      → tx_commit lock self r ≡ (
          if failed (after_apply self r)
          then some (self, mark (after_apply self r))
          else if failed (after_events self r)
          then some (cleared self, mark (after_events self r))
          else if failed (after_finish self r)
          then some (cleared self, mark (after_finish self r))
          else some (tx_release_irrevocability lock (cleared self) (after_finish self r)))
  unfolding tx_commit apply_events
  commit-stages ok =
      rw
        (
          prepare_commit_modules-run_calls self.modules (tx_is_irrevocable self) r,
          ok,
          apply_modules-run_calls self.modules (prepared self r),
        )
        (elim (Bool-cases (failed (after_apply self r))) [
          | inl bad ↦ rw bad
          | inr good ↦
              rw
                (
                  good,
                  foreach-run_calls apply_event self.modules (log_events self.log)
                      (after_apply self r) good,
                  finish_modules-run_calls self.modules (after_events self r),
                )
                refl
        ])

  -- The two ways through three stages, of which the first that fails ends the row.
  stop-none :
      (a b c : Run S)
      → failed (if failed a then a else if failed b then b else c) ≡ false
      → ◌≡◌ {A = Option (Tx S × Run S)}
          (if failed a
            then some (self, mark a)
            else if failed b
            then some (cleared self, mark b)
            else if failed c
            then some (cleared self, mark c)
            else some (tx_release_irrevocability lock (cleared self) c))
          (some (
            tx_release_irrevocability lock
              (cleared self)
              (if failed a then a else if failed b then b else c)))
  stop-none a b c h = ground arith

  stop-some :
      (a b c : Run S)
      → failed (if failed a then a else if failed b then b else c) ≡ true
      → ◌≡◌ {A = Option (Tx S × Run S)}
          (if failed a
            then some (self, mark a)
            else if failed b
            then some (cleared self, mark b)
            else if failed c
            then some (cleared self, mark c)
            else some (tx_release_irrevocability lock (cleared self) c))
          (some (
            if failed a then self else cleared self,
            mark (if failed a then a else if failed b then b else c),
          ))
  stop-some a b c h = ground arith

  -- Once no module refuses, all of this is called in order, up to the first error: the modules' apply,
  -- the events' apply in the order of the log, the modules' finish. If none fails, the commit ends
  -- with that state, an empty log, and irrevocability released.
  pub commit_complete :
      failed (run_calls (prepare_calls self) r) ≡ false
      → failed (run_calls (apply_calls self) (run_calls (prepare_calls self) r)) ≡ false
      → tx_commit lock self r
        ≡ some (
            tx_release_irrevocability lock
              (cleared self)
              (run_calls (apply_calls self) (run_calls (prepare_calls self) r)))
  commit_complete ok done =
      rw (commit-stages ok, apply_calls-stages self r ok)
        (stop-none (after_apply self r) (after_events self r) (after_finish self r)
          (rw (apply_calls-stages self r ok) at done))

  -- If no module refuses and a call behind the point of no return fails, the commit stops with the state
  -- after that call, the error is marked as non-recoverable, and irrevocability is not released. The log is
  -- kept if it was a module's apply that failed, and empty otherwise.
  pub commit-broken :
      failed (run_calls (prepare_calls self) r) ≡ false
      → failed (run_calls (apply_calls self) (run_calls (prepare_calls self) r)) ≡ true
      → tx_commit lock self r
        ≡ some (
          if failed (run_calls (module_apply_calls self) (run_calls (prepare_calls self) r))
              then self
              else cleared self,
          mark (run_calls (apply_calls self) (run_calls (prepare_calls self) r)),
        )
  commit-broken ok bad =
      rw (commit-stages ok, apply_calls-stages self r ok)
        (stop-some (after_apply self r) (after_events self r) (after_finish self r)
          (rw (apply_calls-stages self r ok) at bad))
