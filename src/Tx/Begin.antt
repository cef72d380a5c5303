-- ===== src/Tx/Begin.antt =====
-- src/picotm_tx.c: picotm_tx_begin(), with the retries and irrevocability, and the registration of
-- modules.
use picotm.Prelude.{
  ℕ, ◌+◌, ◌%◌, ◌^◌, ◌≡◌, ◌⊎◌, inl, inr, refl, ◌∙◌, Bool-cases, if_true, if_false, Bool, true, false,
  Option, some, map, take, arith, ◌==◌, if◌then◌else◌,
}
use picotm.Error.{Error, error_initializer, mark_as_non_recoverable, is_set-mark}
use picotm.Module.{Run, failed, module_begin, module_finish}
use picotm.Table.Walk.{passed}
use picotm.Os.{os_rwlock_unlock, PthreadRwlock, Clock}
use picotm.LockOwner.{LockOwner, reset_timestamp}
use picotm.LockManager.{LockManager, make_irrevocable, wait_irrevocable, release_irrevocability}
use picotm.Tx.{
  Tx, TxMode, tx_begin, effective_mode, select_mode, err_begin_modules, tx_release_irrevocability,
  tx_nretries_limit, tx_is_irrevocable,
}
use picotm.Tx.Calls.{run_calls, begin_modules-run_calls, finish_modules-run_calls}

module _ {S : Type 0} (lock : PthreadRwlock S) (clock : Clock S) (self : Tx S) (mode : TxMode)
    (is_retry : Bool) (env : Option ℕ) (r : Run S) where
  abbrev pub retries : ℕ
  retries = if is_retry then (self.nretries + 1) % 2 ^ 64 else 0

  -- The lock manager and the state once the mode is granted, then with the new timestamp.
  abbrev pub granted : LockManager × Run S
  granted = select_mode lock (effective_mode mode retries) self r

  abbrev pub stamped : LockOwner × Run S
  stamped = reset_timestamp clock self.lo granted.1

  abbrev pub started : Tx S
  started = record self {
    lm = granted.0;
    lo = stamped.0;
    nretries = retries;
    mode = effective_mode mode retries;
    env = env;
  }

  -- When the mode is granted, the clock is read and every module begins, the transaction runs: with the
  -- modules begun in their order, the retries counted, and in the effective mode.
  pub begin_complete :
      failed granted.1 ≡ false
      → failed stamped.1 ≡ false
      → failed (run_calls (map module_begin self.modules) stamped.1) ≡ false
      → tx_begin lock clock self mode is_retry env r
        ≡ some (started, run_calls (map module_begin self.modules) stamped.1)
  unfolding tx_begin
  begin_complete g s ok = rw (g, s, begin_modules-run_calls, ok)

  -- The state in which a module's begin has failed.
  abbrev pub broken : Run S
  broken = run_calls (map module_begin self.modules) stamped.1

  -- The modules that began are finished, with an error of their own.
  abbrev pub wound_up : Run S
  wound_up =
      run_calls (map module_finish (take (passed module_begin self.modules stamped.1) self.modules))
        (record { world = broken.world; error = error_initializer })

  -- When a module fails to begin, the modules before it are finished, and no other. The error is the one of
  -- that module. Irrevocability is released if they finish; otherwise the error is marked as
  -- non-recoverable and irrevocability is not released.
  pub begin-broken :
      failed granted.1 ≡ false
      → failed stamped.1 ≡ false
      → failed broken ≡ true
      → tx_begin lock clock self mode is_retry env r ≡ (
          if failed wound_up
          then some (
            started,
            record { world = wound_up.world; error = mark_as_non_recoverable broken.error },
          )
          else some (
              tx_release_irrevocability lock started
                (record { world = wound_up.world; error = broken.error })))
  unfolding tx_begin err_begin_modules
  begin-broken g s bad = rw (g, s, begin_modules-run_calls, bad, finish_modules-run_calls)

  -- What is meant by the mode of a transaction that has begun.
  abbrev asked : Bool
  asked = tx_is_irrevocable (record self { mode = mode })

  begun_mode :
      failed granted.1 ≡ false
      → (tx_is_irrevocable started ≡ (if retries == tx_nretries_limit then true else asked))
        × (started.lm.exclusive_lo
            ≡ (if tx_is_irrevocable started then some self.lo.address else self.lm.exclusive_lo))
  unfolding tx_is_irrevocable effective_mode select_mode make_irrevocable wait_irrevocable
  begun_mode g = ground arith

  failed-release :
      (tx : Tx S) (q : Run S) → failed (tx_release_irrevocability lock tx q).1 ≡ failed q
  unfolding tx_release_irrevocability release_irrevocability os_rwlock_unlock failed
  failed-release tx q = refl

  -- A begin reports an error of one of its three stages, or the transaction runs.
  abbrev pub Outcome : Tx S × Run S → Type 0
  Outcome (tx, q) =
      ((failed q ≡ true)
        × ((failed granted.1 ≡ true) ⊎ ((failed stamped.1 ≡ true) ⊎ (failed broken ≡ true))))
      ⊎ ((failed q ≡ false)
          × (tx.modules ≡ self.modules)
          × (q ≡ run_calls (map module_begin self.modules) stamped.1)
          × (tx.nretries ≡ (if is_retry then (self.nretries + 1) % 2 ^ 64 else 0))
          × (tx_is_irrevocable tx ≡ (if tx.nretries == tx_nretries_limit then true else asked))
          × (tx.lm.exclusive_lo
              ≡ (if tx_is_irrevocable tx then some self.lo.address else self.lm.exclusive_lo)))

  broken_lem :
      failed granted.1 ≡ false
      → failed stamped.1 ≡ false
      → failed broken ≡ true
      → (o : Tx S × Run S) × (tx_begin lock clock self mode is_retry env r ≡ some o) × Outcome o
  broken_lem g s bad = elim (Bool-cases (failed wound_up)) [
    | inl worse ↦ (
      _,
      begin-broken g s bad ∙ if_true (failed wound_up) _ _ worse,
      inl (unfold failed in (is_set-mark broken.error ∙ unfold failed in bad), inr (inr bad)),
    )
    | inr ended ↦ (
      _,
      begin-broken g s bad ∙ if_false (failed wound_up) _ _ ended,
      inl (
        failed-release started (record { world = wound_up.world; error = broken.error })
            ∙ unfold failed in bad,
        inr (inr bad),
      ),
    )
  ]

  -- A begin always comes back. It reports an error only if the mode is not granted, the clock cannot be
  -- read or a module does not begin. Otherwise the modules have begun in their order and stay
  -- registered, and the retries are counted, or start again from 0. The transaction is irrevocable if the
  -- count is the limit of 10, and in the mode that was asked for at any other count, greater ones
  -- included; an irrevocable transaction is the exclusive one, and one that is revocable leaves the
  -- exclusive owner as it was.
  pub tx_begin_lem :
      (o : Tx S × Run S) × (tx_begin lock clock self mode is_retry env r ≡ some o) × Outcome o
  tx_begin_lem = elim (Bool-cases (failed granted.1)) [
    | inl bad ↦ (
      (record self { lm = granted.0 }, granted.1),
      unfold tx_begin in (rw bad refl),
      inl (bad, inl bad),
    )
    | inr g ↦ elim (Bool-cases (failed stamped.1)) [
      | inl bad ↦
          let stopped : Tx S = record self { lm = granted.0; lo = stamped.0 } in
          (
            tx_release_irrevocability lock stopped stamped.1,
            unfold tx_begin in (rw (g, bad) refl),
            inl (failed-release stopped stamped.1 ∙ bad, inr (inl bad)),
          )
      | inr s ↦ elim (Bool-cases (failed broken)) [
        | inl bad ↦ broken_lem g s bad
        | inr ok ↦ (
          _,
          begin_complete g s ok,
          let (irrevocably, exclusive) = begun_mode g in
              inr (ok, refl, refl, refl, irrevocably, exclusive),
        )
      ]
    ]
  ]
