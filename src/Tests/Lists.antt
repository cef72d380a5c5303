-- ===== src/Tests/Lists.antt =====
-- modules/txlib/src/txlist_tx.c: a transaction on a list of two entries.
use picotm.Prelude.{ℕ, ◌≡◌, ◌⊎◌, refl, arith, Bool, true, some, List, [], ◌∷◌, ◌==◌, ◌||◌}
use picotm.Error.{Error, error_initializer, is_set-initializer}
use picotm.Rwlock.Threads.{unlocked}
use picotm.Rwlock.Wait.{Attempt}
use picotm.TxList.{Store, write, list_clear_and_uninit}
use picotm.TxList.Shape.{IsList}
use picotm.TxList.Transaction.{ListTx, list_failed}
use picotm.TxList.Session.{
  ListOp, insert_at, erase_entry, pop_front, pop_back, push_front, push_back, clear, exec_list_ops,
  undo_list,
}
use picotm.TxList.Tidy.{IsTidy}
use picotm.TxList.Walk.{list_clear_and_uninit_lem}
use picotm.TxList.Rollback.{exec_list_ops-IsList, undo_list-exec_list_ops}

-- The head 9 with the entries 2 and 3.
abbrev two_entries : Store
two_entries = record {
  next = write (write (write (λ x. 0) 9 2) 2 3) 3 9;
  prev = write (write (write (λ x. 0) 2 9) 3 2) 9 3;
}

abbrev list_entries : ℕ → Bool
list_entries x = (x == 2) || (x == 3) || (x == 4) || (x == 5)

two_entries-IsList : IsList two_entries 9 (2 ∷ 3 ∷ [])
two_entries-IsList = record {
  seg = (refl, refl, (refl, refl, (refl, refl)));
  distinct = (refl, (refl, tt));
  out = refl;
}

two_entries-IsTidy : IsTidy list_entries 9 two_entries (2 ∷ 3 ∷ [])
two_entries-IsTidy = record {
  list = two_entries-IsList;
  single = λ x m c. (ground arith, ground arith);
  head_out = refl;
}

abbrev list_tx : ListTx
list_tx = record {
  state = record { status = unlocked; attempt = record { word = 0; error = error_initializer } };
  head = 9;
  store = two_entries;
  events = [];
}

abbrev list_ops : List ListOp
list_ops = push_front 4 ∷ insert_at 5 3 ∷ erase_entry 2 ∷ pop_back ∷ push_back 2 ∷ pop_front ∷ []

abbrev empty_ops : List ListOp
empty_ops = push_back 5 ∷ clear ∷ push_front 3 ∷ []

abbrev list_stay : Attempt → Attempt
list_stay a = a

abbrev list_resized : Error → Error
list_resized e = e

abbrev list_appended : ℕ → Error → Error
list_appended n e = e

exec_list_ops-IsList_example :
    (q : ListTx) × (exec_list_ops 20 4 list_stay list_resized list_appended list_ops list_tx
      ≡ some q)
    × ((list_failed q ≡ true) ⊎ IsList q.store 9 (5 ∷ 2 ∷ []))
unfolding list_failed
exec_list_ops-IsList_example =
    exec_list_ops-IsList list_entries 20 4 list_stay list_resized list_appended list_ops
      (2 ∷ 3 ∷ []) (5 ∷ 2 ∷ []) list_tx (λ n e h. h) refl (omega arith) is_set-initializer refl
      two_entries-IsTidy

undo_list-exec_list_ops_example :
    (q : ListTx) × (exec_list_ops 20 4 list_stay list_resized list_appended empty_ops list_tx
      ≡ some q)
    × ((undo_list q.events q).store ≡ two_entries)
unfolding list_failed
undo_list-exec_list_ops_example =
    undo_list-exec_list_ops list_entries 20 4 list_stay list_resized list_appended empty_ops
      (2 ∷ 3 ∷ []) (3 ∷ []) list_tx (λ n e h. h) refl (omega arith) is_set-initializer refl
      two_entries-IsTidy

list_clear_and_uninit_lem_example :
    (cleared : Store) × (list_clear_and_uninit 3 9 two_entries ≡ some (cleared, 2 ∷ 3 ∷ []))
    × IsList cleared 9 []
list_clear_and_uninit_lem_example =
    list_clear_and_uninit_lem 3 9 two_entries (2 ∷ 3 ∷ []) two_entries-IsList (omega arith)
