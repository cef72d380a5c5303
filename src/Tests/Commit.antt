-- ===== src/Tests/Commit.antt =====
-- src/picotm_tx.c: commits of a transaction over counters.
use picotm.Prelude.{ℕ, ◌≡◌, refl, true, false, some, if◌then◌else◌}
use picotm.Error.{set_errno, is_set}
use picotm.Module.{failed, module_apply, module_apply_event, module_finish, module_prepare_commit}
use picotm.Log.{log_events}
use picotm.Tx.{apply_event, tx_commit, tx_release_irrevocability, mark}
use picotm.Tx.Calls.{run_calls}
use picotm.Tx.Commit.{
  commit_complete, commit-broken, cleared, prepare_calls, apply_calls, module_apply_calls,
}
use picotm.Tests.Data.{no_error, free_lock, adders, broken_tx}

module _ (n : ℕ) where
  prepared : failed (run_calls (prepare_calls adders) (no_error n)) ≡ false
  unfolding failed is_set module_prepare_commit
  prepared = refl

  applied :
      failed (run_calls (apply_calls adders) (run_calls (prepare_calls adders) (no_error n)))
      ≡ false
  unfolding failed is_set module_prepare_commit module_apply apply_event module_apply_event
      module_finish log_events
  applied = refl

commit_complete_example :
    tx_commit free_lock adders (no_error 5)
    ≡ some (
        tx_release_irrevocability free_lock
          (cleared adders)
          (run_calls (apply_calls adders) (run_calls (prepare_calls adders) (no_error 5))))
commit_complete_example = commit_complete free_lock adders (no_error 5) (prepared 5) (applied 5)

-- 5 + 3 + 4, then the modules' finish with 10 and 20
adders-commit :
    (run_calls (apply_calls adders) (run_calls (prepare_calls adders) (no_error 5))).world ≡ 42
unfolding failed is_set module_prepare_commit module_apply apply_event module_apply_event
    module_finish log_events
adders-commit = refl

agreed : failed (run_calls (prepare_calls broken_tx) (no_error 5)) ≡ false
unfolding failed is_set module_prepare_commit
agreed = refl

breaks :
    failed (run_calls (apply_calls broken_tx) (run_calls (prepare_calls broken_tx) (no_error 5)))
    ≡ true
unfolding failed is_set module_prepare_commit module_apply set_errno
breaks = refl

commit-broken_example :
    tx_commit free_lock broken_tx (no_error 5)
    ≡ some (
      if failed (
            run_calls
              (module_apply_calls broken_tx)
              (run_calls (prepare_calls broken_tx) (no_error 5)))
          then broken_tx
          else cleared broken_tx,
      mark (run_calls (apply_calls broken_tx) (run_calls (prepare_calls broken_tx) (no_error 5))),
    )
commit-broken_example = commit-broken free_lock broken_tx (no_error 5) agreed breaks
