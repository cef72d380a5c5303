-- ===== src/Rwlock/Wait.antt =====
-- src/picotm-lib-rwlock.c: try_lock_or_wait(), and the two ways to acquire the lock.
--
-- The argument `wait` is what becomes of the byte and the error while the thread waits in
-- picotm_lock_manager_wait(), where other threads go on. `nretries` is 0 in the source from the start, so
-- that the branch which sleeps is never taken.
use picotm.Prelude.{ℕ, zero, suc, ◌≡◌, arith, Bool, true, false, Option, none, some, if◌then◌else◌}
use picotm.Error.{Error, is_set, set_conflicting}
use picotm.Rwlock.{try_rdlock, try_wrlock, try_uplock}

-- The byte of the lock, and the error of the caller.
pub record Attempt : Type 0 where
  pub word : ℕ
  pub error : Error

module _ (lock : ℕ) (try_lock : ℕ → Bool × ℕ) (wait : Attempt → Attempt) where
  lock_loop : ℕ → Bool → Attempt → Option Attempt
  lock_loop zero waited a = none
  lock_loop (suc fuel) waited a =
      let tried = try_lock a.word in
      let b = record a { word = tried.1 } in
      let after = wait b in
      let rest = lock_loop fuel true after in
      if tried.0
      then some b
      else if waited
      then some (record b { error = set_conflicting a.error (some lock) })
      else if is_set after.error
      then some after
      else rest

  -- Two rounds: the first waits, and the second succeeds or reports the conflict.
  unfoldable pub try_lock_or_wait : Attempt → Option Attempt
  unfolding lock_loop
  try_lock_or_wait a = lock_loop 2 false a

  -- The state of the second round.
  abbrev pub awaited : Attempt → Attempt
  awaited a = wait (record a { word = (try_lock a.word).1 })

  -- An attempt ends within two rounds. It succeeds at the first try; or the wait fails, with the error
  -- of the wait; or the try after the wait succeeds; or that fails too, and the error says that this lock
  -- is in conflict.
  pub try_lock_or_wait_lem :
      (a : Attempt)
      → try_lock_or_wait a
        ≡ some (
            if (try_lock a.word).0
            then record a { word = (try_lock a.word).1 }
            else if is_set (awaited a).error
            then awaited a
            else if (try_lock (awaited a).word).0
            then record (awaited a) { word = (try_lock (awaited a).word).1 }
            else record {
              word = (try_lock (awaited a).word).1;
              error = set_conflicting (awaited a).error (some lock);
            })
  unfolding try_lock_or_wait
  try_lock_or_wait_lem a = ground arith

-- picotm_rwlock_try_rdlock()
unfoldable pub rwlock_try_rdlock : ℕ → (Attempt → Attempt) → Attempt → Option Attempt
rwlock_try_rdlock lock wait a = try_lock_or_wait lock try_rdlock wait a

-- picotm_rwlock_try_wrlock()
unfoldable pub rwlock_try_wrlock : ℕ → (Attempt → Attempt) → Bool → Attempt → Option Attempt
rwlock_try_wrlock lock wait upgrade a =
    try_lock_or_wait lock (if upgrade then try_uplock else try_wrlock) wait a
