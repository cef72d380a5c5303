-- ===== src/Tests/Queues.antt =====
-- modules/txlib/src/txqueue_tx.c: a transaction on a queue of one entry.
use picotm.Prelude.{ℕ, ◌≡◌, ◌⊎◌, refl, true, some, List, [], ◌∷◌}
use picotm.Error.{Error, error_initializer}
use picotm.Rwlock.Threads.{unlocked}
use picotm.Rwlock.Wait.{Attempt}
use picotm.TxLib.{tx_failed}
use picotm.TxQueue.{QueueTx}
use picotm.TxQueue.Session.{QueueOp, push, pop, exec_ops, apply_all, undo_all}
use picotm.TxQueue.Commit.{queue_apply_all-exec_ops}
use picotm.TxQueue.Rollback.{queue_undo_all-exec_ops}

abbrev queue : QueueTx
queue = record {
  local_entries = [];
  shared_entries = 1 ∷ [];
  state = record { status = unlocked; attempt = record { word = 0; error = error_initializer } };
  events = [];
}

-- The second pop takes an entry that the transaction has pushed.
abbrev ops : List QueueOp
ops = push 7 ∷ pop ∷ pop ∷ push 8 ∷ push 9 ∷ []

abbrev stay : Attempt → Attempt
stay a = a

abbrev resized : Error → Error
resized e = e

abbrev appended : ℕ → Error → Error
appended n e = e

queue_apply_all-exec_ops_example :
    (q : QueueTx) × (exec_ops 4 stay resized appended ops queue ≡ some q)
    × ((tx_failed q ≡ true)
        ⊎ ((apply_all q.events q).local_entries ≡ []
            × ((apply_all q.events q).shared_entries ≡ 8 ∷ 9 ∷ [])))
queue_apply_all-exec_ops_example =
    queue_apply_all-exec_ops 4 stay resized appended ops queue (8 ∷ 9 ∷ []) refl refl

queue_undo_all-exec_ops_example :
    (q : QueueTx) × (exec_ops 4 stay resized appended ops queue ≡ some q)
    × ((undo_all q.events q).local_entries ≡ [])
    × ((undo_all q.events q).shared_entries ≡ 1 ∷ [])
queue_undo_all-exec_ops_example =
    queue_undo_all-exec_ops 4 stay resized appended ops queue (8 ∷ 9 ∷ []) (λ n e h. h) refl refl
      refl
