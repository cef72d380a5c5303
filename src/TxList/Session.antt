-- ===== src/TxList/Session.antt =====
-- modules/txlib/src/txlist_tx.c: what a transaction does on one list, and the same operations on a plain
-- list.
use picotm.Prelude.{
  ℕ, ◌==◌, ◌++◌, not, Bool, Option, none, some, List, [], ◌∷◌, length, if◌then◌else◌, ◌>>=◌, take,
  ◌&&◌, ◌||◌,
}
use picotm.Error.{Error}
use picotm.Rwlock.Wait.{Attempt}
use picotm.TxList.Shape.{contains, insert_before, without}
use picotm.TxList.Transaction.{
  ListEvent, ListTx, list_failed, list_event_undo, txlist_tx_exec_insert, txlist_tx_exec_erase,
  txlist_tx_exec_pop_front, txlist_tx_exec_pop_back, txlist_tx_exec_push_front,
  txlist_tx_exec_push_back, txlist_tx_exec_clear,
}

pub data ListOp : Type 0 where
  insert_at : (entry : ℕ) (position : ℕ) → ListOp
  erase_entry : (entry : ℕ) → ListOp
  pop_front : ListOp
  pop_back : ListOp
  push_front : (entry : ℕ) → ListOp
  push_back : (entry : ℕ) → ListOp
  clear : ListOp

-- The plain list. `none` is an operation that the list cannot do: an entry goes in that is not one of `mine`
-- or is in the list, or at a position that is neither in the list nor its end, or an entry goes out that is
-- not in the list.
module _ (mine : ℕ → Bool) (head : ℕ) where
  abbrev pub is_new : ℕ → List ℕ → Bool
  is_new e xs = mine e && not (contains e xs)

  abbrev pub run_list_op : ListOp → List ℕ → Option (List ℕ)
  run_list_op (insert_at e position) xs =
      if is_new e xs
      then (if contains position xs || (position == head)
          then some (insert_before e position xs)
          else none)
      else none
  run_list_op (erase_entry e) xs = if contains e xs then some (without e xs) else none
  run_list_op pop_front [] = none
  run_list_op pop_front (x ∷ xs) = some xs
  run_list_op pop_back [] = none
  run_list_op pop_back (x ∷ xs) = some (take (length xs) (x ∷ xs))
  run_list_op (push_front e) xs = if is_new e xs then some (e ∷ xs) else none
  run_list_op (push_back e) xs = if is_new e xs then some (xs ++ e ∷ []) else none
  run_list_op clear xs = some []

  abbrev pub run_list_ops : List ListOp → List ℕ → Option (List ℕ)
  run_list_ops [] xs = some xs
  run_list_ops (op ∷ ops) xs = run_list_op op xs >>= λ ys. run_list_ops ops ys

module _ (fuel lock : ℕ) (wait : Attempt → Attempt) (resize : Error → Error)
    (append_event : ℕ → Error → Error) where
  abbrev pub exec_list_op : ListOp → ListTx → Option ListTx
  exec_list_op (insert_at e position) self =
      txlist_tx_exec_insert lock wait resize append_event e position self
  exec_list_op (erase_entry e) self = txlist_tx_exec_erase lock wait resize append_event e self
  exec_list_op pop_front self = txlist_tx_exec_pop_front lock wait resize append_event self
  exec_list_op pop_back self = txlist_tx_exec_pop_back lock wait resize append_event self
  exec_list_op (push_front e) self = txlist_tx_exec_push_front lock wait resize append_event e self
  exec_list_op (push_back e) self = txlist_tx_exec_push_back lock wait resize append_event e self
  exec_list_op clear self = txlist_tx_exec_clear lock wait resize append_event fuel self

  -- The operations of a transaction, up to the first error.
  abbrev pub exec_list_ops : List ListOp → ListTx → Option ListTx
  exec_list_ops [] self = some self
  exec_list_ops (op ∷ ops) self =
      exec_list_op op self >>= λ q. if list_failed q then some q else exec_list_ops ops q

-- Undo the events from the last one of the log to the first.
abbrev pub undo_list : List ListEvent → ListTx → ListTx
undo_list [] self = self
undo_list (ev ∷ evs) self = list_event_undo ev (undo_list evs self)
