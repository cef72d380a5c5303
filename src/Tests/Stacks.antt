-- ===== src/Tests/Stacks.antt =====
-- modules/txlib/src/txstack_tx.c: a transaction on a stack of three entries.
use picotm.Prelude.{ℕ, ◌≡◌, ◌⊎◌, refl, true, some, List, [], ◌∷◌}
use picotm.Error.{Error, error_initializer}
use picotm.Rwlock.Threads.{unlocked}
use picotm.Rwlock.Wait.{Attempt}
use picotm.TxLib.{tx_failed}
use picotm.TxStack.{StackTx}
use picotm.TxStack.Session.{StackOp, push, pop, exec_ops, apply_all, undo_all}
use picotm.TxStack.Commit.{apply_all-exec_ops}
use picotm.TxStack.Rollback.{undo_all-exec_ops}

abbrev stack : StackTx
stack = record {
  local_entries = [];
  shared_entries = 1 ∷ 2 ∷ 3 ∷ [];
  state = record { status = unlocked; attempt = record { word = 0; error = error_initializer } };
  events = [];
}

abbrev ops : List StackOp
ops = push 7 ∷ pop ∷ pop ∷ push 8 ∷ push 9 ∷ []

abbrev stay : Attempt → Attempt
stay a = a

abbrev resized : Error → Error
resized e = e

abbrev appended : ℕ → Error → Error
appended n e = e

apply_all-exec_ops_example :
    (q : StackTx) × (exec_ops 4 stay resized appended ops stack ≡ some q)
    × ((tx_failed q ≡ true)
        ⊎ ((apply_all q.events q).local_entries ≡ []
            × ((apply_all q.events q).shared_entries ≡ 9 ∷ 8 ∷ 2 ∷ 3 ∷ [])))
apply_all-exec_ops_example =
    apply_all-exec_ops 4 stay resized appended ops stack (9 ∷ 8 ∷ 2 ∷ 3 ∷ []) refl refl

undo_all-exec_ops_example :
    (q : StackTx) × (exec_ops 4 stay resized appended ops stack ≡ some q)
    × ((undo_all q.events q).local_entries ≡ [])
    × ((undo_all q.events q).shared_entries ≡ 1 ∷ 2 ∷ 3 ∷ [])
undo_all-exec_ops_example =
    undo_all-exec_ops 4 stay resized appended ops stack (9 ∷ 8 ∷ 2 ∷ 3 ∷ []) (λ n e h. h) refl refl
      refl
