-- ===== src/Tests/Begin.antt =====
-- src/picotm_tx.c: begins of a transaction over counters.
use picotm.Prelude.{ℕ, ◌≡◌, refl, true, false, none, some, if◌then◌else◌, map}
use picotm.Error.{set_errno, is_set, mark_as_non_recoverable}
use picotm.Module.{Run, failed, module_begin}
use picotm.Os.{os_rwlock_rdlock, os_rwlock_wrlock, os_get_timespec}
use picotm.LockOwner.{reset_timestamp}
use picotm.LockManager.{wait_irrevocable, make_irrevocable}
use picotm.Tx.{Tx, revocable, tx_begin, tx_release_irrevocability, select_mode, effective_mode}
use picotm.Tx.Calls.{run_calls}
use picotm.Tx.Begin.{
  begin-broken, tx_begin_lem, Outcome, started, granted, stamped, broken, wound_up,
}
use picotm.Tests.Data.{no_error, free_lock, stopped_clock, adders, unable_tx}

granted-adders :
    failed (granted free_lock stopped_clock adders revocable true none (no_error 5)).1 ≡ false
unfolding failed is_set select_mode effective_mode make_irrevocable os_rwlock_wrlock
granted-adders = refl

stamped-adders :
    failed (stamped free_lock stopped_clock adders revocable true none (no_error 5)).1 ≡ false
unfolding failed is_set select_mode effective_mode make_irrevocable os_rwlock_wrlock reset_timestamp
    os_get_timespec
stamped-adders = refl

begun_adders :
    failed (
      run_calls
        (map module_begin adders.modules)
        (stamped free_lock stopped_clock adders revocable true none (no_error 5)).1)
    ≡ false
unfolding failed is_set select_mode effective_mode make_irrevocable os_rwlock_wrlock reset_timestamp
    os_get_timespec module_begin
begun_adders = refl

-- The transaction has been retried nine times, and this is the tenth.
tx_begin_lem_example :
    (o : Tx ℕ × Run ℕ) × (tx_begin free_lock stopped_clock adders revocable true none (no_error 5)
      ≡ some o)
    × Outcome free_lock stopped_clock adders revocable true none (no_error 5) o
tx_begin_lem_example = tx_begin_lem free_lock stopped_clock adders revocable true none (no_error 5)

granted_unable :
    failed (granted free_lock stopped_clock unable_tx revocable false none (no_error 5)).1 ≡ false
unfolding failed is_set select_mode effective_mode wait_irrevocable os_rwlock_rdlock
granted_unable = refl

stamped_unable :
    failed (stamped free_lock stopped_clock unable_tx revocable false none (no_error 5)).1 ≡ false
unfolding failed is_set select_mode effective_mode wait_irrevocable os_rwlock_rdlock reset_timestamp
    os_get_timespec
stamped_unable = refl

broken_unable :
    failed (broken free_lock stopped_clock unable_tx revocable false none (no_error 5)) ≡ true
unfolding failed is_set select_mode effective_mode wait_irrevocable os_rwlock_rdlock reset_timestamp
    os_get_timespec module_begin set_errno
broken_unable = refl

begin-broken_example :
    tx_begin free_lock stopped_clock unable_tx revocable false none (no_error 5) ≡ (
      if failed (wound_up free_lock stopped_clock unable_tx revocable false none (no_error 5))
      then some (
        started free_lock stopped_clock unable_tx revocable false none (no_error 5),
        record {
          world =
              (wound_up free_lock stopped_clock unable_tx revocable false none (no_error 5)).world;
          error =
              mark_as_non_recoverable
                (broken free_lock stopped_clock unable_tx revocable false none (no_error 5)).error;
        },
      )
      else some (
          tx_release_irrevocability free_lock
            (started free_lock stopped_clock unable_tx revocable false none (no_error 5))
            (record {
              world =
                  (wound_up free_lock stopped_clock unable_tx revocable false none
                    (no_error 5)).world;
              error =
                  (broken free_lock stopped_clock unable_tx revocable false none
                    (no_error 5)).error;
            })))
begin-broken_example =
    begin-broken free_lock stopped_clock unable_tx revocable false none (no_error 5) granted_unable
      stamped_unable broken_unable
