-- ===== src/Tests/Rollback.antt =====
-- src/picotm_tx.c: rollbacks of a transaction over counters.
use picotm.Prelude.{
  ℕ, zero, suc, ◌+◌, ◌≡◌, refl, arith, false, Option, none, some, get_elem?, if◌then◌else◌,
}
use picotm.Error.{error_initializer, is_set, is_set-initializer}
use picotm.Module.{Run, failed, Module, module_undo, module_undo_event, module_finish}
use picotm.Event.{Event}
use picotm.Log.{log_events}
use picotm.Tx.{undo_event, tx_rollback, tx_release_irrevocability, mark}
use picotm.Tx.Calls.{run_calls}
use picotm.Tx.Commit.{cleared, finish_calls}
use picotm.Tx.Rollback.{rollback-exec, tx_rollback_lem, exec_events, module_undo_calls, undo_calls}
use picotm.Tests.Data.{no_error, free_lock, adders}

-- What an event does to the number, if its module is registered.
abbrev add_at : Option (Module ℕ) → ℕ → ℕ → ℕ
add_at none tail n = n
add_at (some m) tail n = n + tail

abbrev exec : Event → ℕ → ℕ
exec ev n = add_at (get_elem? (adders.modules) ev.module_id) ev.tail n

undo_exec :
    (id head tail n : ℕ)
    → undo_event
        (record { module_id = id; head = head; tail = tail })
        adders.modules
        (no_error (exec (record { module_id = id; head = head; tail = tail }) n))
      ≡ no_error n
unfolding undo_event module_undo_event
undo_exec zero head tail n = ground arith
undo_exec (suc zero) head tail n = ground arith
undo_exec (suc (suc id)) head tail n = refl

idle : (q : Run ℕ) → run_calls (module_undo_calls adders) q ≡ q
unfolding module_undo
idle q = ground arith

finished : failed (run_calls (finish_calls adders) (no_error 5)) ≡ false
unfolding failed is_set module_finish
finished = refl

rollback-exec_example :
    tx_rollback free_lock adders (no_error (exec_events exec (log_events adders.log) 5))
    ≡ some (
        tx_release_irrevocability free_lock
          (cleared adders)
          (run_calls (finish_calls adders) (no_error 5)))
rollback-exec_example =
    rollback-exec free_lock adders exec error_initializer 5 is_set-initializer
      (λ ev w. undo_exec ev.module_id ev.head ev.tail w) idle finished

clean : failed (no_error 12) ≡ false
unfolding failed is_set
clean = refl

tx_rollback_lem_example :
    tx_rollback free_lock adders (no_error 12)
    ≡ some (
        tx_release_irrevocability free_lock
          (if failed (run_calls (module_undo_calls adders) (no_error 12))
            then adders
            else cleared adders)
          (if failed (run_calls (undo_calls adders) (no_error 12))
            then mark (run_calls (undo_calls adders) (no_error 12))
            else run_calls (undo_calls adders) (no_error 12)))
tx_rollback_lem_example = tx_rollback_lem free_lock adders (no_error 12) clean
