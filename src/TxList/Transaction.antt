-- ===== src/TxList/Transaction.antt =====
-- modules/txlib/src/txlist_tx.c, with the append of the events by txlib_tx_append_events3() of txlib_tx.c:
-- the transaction on a list.
--
-- The arguments are those of TxLib. The list of the events is the transaction's log of them, oldest first.
use picotm.Prelude.{
  ℕ, zero, suc, Bool, false, Option, some, List, [], ◌∷◌, ◌++◌, length, if◌then◌else◌, ◌>>=◌,
}
use picotm.Error.{Error, is_set}
use picotm.Rwlock.Wait.{Attempt}
use picotm.Rwlock.State.{Rwstate, rwstate_try_rdlock, rwstate_try_wrlock, rwstate_unlock}
use picotm.TxList.{
  Store, list_begin, list_end, list_size, list_is_empty, list_front, list_back, list_insert,
  list_erase,
}

pub data ListEvent : Type 0 where
  list_insert_event : (entry : ℕ) → ListEvent
  list_erase_event : (entry : ℕ) (position : ℕ) → ListEvent

pub record ListTx : Type 0 where
  pub state : Rwstate
  pub head : ℕ
  pub store : Store
  pub events : List ListEvent

abbrev pub error_of_list : ListTx → Error
error_of_list self = self.state.attempt.error

unfoldable pub list_failed : ListTx → Bool
list_failed self = is_set (error_of_list self)

abbrev pub with_list_error : ListTx → Error → ListTx
with_list_error self e = record self {
  state = record (self.state) { attempt = record (self.state.attempt) { error = e } };
}

abbrev pub in_list_state : ListTx → Rwstate → ListTx
in_list_state self s = record self { state = s }

-- The event with the list after the operation.
abbrev pub exec_list_insert : ℕ → ℕ → ListTx → ListEvent × ListTx
exec_list_insert entry position self =
    (list_insert_event entry, record self { store = list_insert entry position self.store })

abbrev pub exec_list_erase : ℕ → ListTx → ListEvent × ListTx
exec_list_erase entry self = (
  list_erase_event entry (self.store.next entry),
  record self { store = list_erase entry self.store },
)

abbrev pub exec_list_pop_front : ListTx → ListEvent × ListTx
unfolding list_front
exec_list_pop_front self = exec_list_erase (list_front self.head self.store) self

abbrev pub exec_list_pop_back : ListTx → ListEvent × ListTx
unfolding list_back
exec_list_pop_back self = exec_list_erase (list_back self.head self.store) self

abbrev pub exec_list_push_front : ℕ → ListTx → ListEvent × ListTx
exec_list_push_front entry self = exec_list_insert entry (list_begin self.head self.store) self

abbrev pub exec_list_push_back : ℕ → ListTx → ListEvent × ListTx
exec_list_push_back entry self = exec_list_insert entry (list_end self.head) self

abbrev pub exec_list_clear : ListTx → ListEvent × ListTx
unfolding list_front
exec_list_clear self = exec_list_erase (list_front self.head self.store) self

module _ (resize : Error → Error) (append_event : ℕ → Error → Error) where
  -- One round of the loop of txlib_tx_append_events3(), whose event counts once
  -- picotm_append_event() reports no error.
  unfoldable pub append_round : ListEvent × ListTx → ListTx
  unfolding list_failed
  append_round (ev, self) =
      let logged = with_list_error self (append_event (length self.events) (error_of_list self)) in
      if list_failed self
      then self
      else if list_failed logged
      then logged
      else record logged { events = self.events ++ ev ∷ [] }

  unfoldable pub append_rounds : ℕ → (ListTx → ListEvent × ListTx) → ListTx → ListTx
  unfolding append_round
  append_rounds zero init self = self
  append_rounds (suc n) init self =
      let next = append_round (init self) in
      let rest = append_rounds n init next in if list_failed next then next else rest

  unfoldable pub append_list_events : ℕ → (ListTx → ListEvent × ListTx) → ListTx → ListTx
  append_list_events n init self =
      let resized = with_list_error self (resize (error_of_list self)) in
      let rest = append_rounds n init resized in if list_failed resized then resized else rest

module _ (lock : ℕ) (wait : Attempt → Attempt) where
  unfoldable pub try_rdlock_list : ListTx → Option ListTx
  try_rdlock_list self =
      rwstate_try_rdlock lock wait self.state >>= λ s. some (in_list_state self s)

  unfoldable pub try_wrlock_list : ListTx → Option ListTx
  try_wrlock_list self =
      rwstate_try_wrlock lock wait self.state >>= λ s. some (in_list_state self s)

  -- The answer that `read` gives of the list, `0` after an error.
  abbrev pub read_list : (ListTx → Option ℕ) → ListTx → Option (ListTx × ℕ)
  unfolding try_rdlock_list list_failed
  read_list read self = try_rdlock_list self >>= λ locked.
      if list_failed locked then some (locked, 0) else (read locked >>= λ n. some (locked, n))

  unfoldable pub txlist_tx_exec_begin : ListTx → Option (ListTx × ℕ)
  txlist_tx_exec_begin self = read_list (λ t. some (list_begin t.head t.store)) self

  unfoldable pub txlist_tx_exec_empty : ListTx → Option (ListTx × Bool)
  unfolding try_rdlock_list list_failed list_is_empty
  txlist_tx_exec_empty self = try_rdlock_list self >>= λ locked.
      some (locked, if list_failed locked then false else list_is_empty locked.head locked.store)

  unfoldable pub txlist_tx_exec_size : ℕ → ListTx → Option (ListTx × ℕ)
  unfolding list_size
  txlist_tx_exec_size fuel self = read_list (λ t. list_size fuel t.head t.store) self

  unfoldable pub txlist_tx_exec_front : ListTx → Option (ListTx × ℕ)
  unfolding list_front
  txlist_tx_exec_front self = read_list (λ t. some (list_front t.head t.store)) self

  unfoldable pub txlist_tx_exec_back : ListTx → Option (ListTx × ℕ)
  unfolding list_back
  txlist_tx_exec_back self = read_list (λ t. some (list_back t.head t.store)) self

  module _ (resize : Error → Error) (append_event : ℕ → Error → Error) where
    -- The operation of one event, under the lock.
    abbrev pub exec_locked : (ListTx → ListEvent × ListTx) → ListTx → Option ListTx
    unfolding try_wrlock_list list_failed append_list_events
    exec_locked init self = try_wrlock_list self >>= λ locked. some (
        if list_failed locked then locked else append_list_events resize append_event 1 init locked)

    unfoldable pub txlist_tx_exec_insert : ℕ → ℕ → ListTx → Option ListTx
    txlist_tx_exec_insert entry position self = exec_locked (exec_list_insert entry position) self

    unfoldable pub txlist_tx_exec_erase : ℕ → ListTx → Option ListTx
    txlist_tx_exec_erase entry self = exec_locked (exec_list_erase entry) self

    unfoldable pub txlist_tx_exec_pop_front : ListTx → Option ListTx
    txlist_tx_exec_pop_front self = exec_locked exec_list_pop_front self

    unfoldable pub txlist_tx_exec_pop_back : ListTx → Option ListTx
    txlist_tx_exec_pop_back self = exec_locked exec_list_pop_back self

    unfoldable pub txlist_tx_exec_push_front : ℕ → ListTx → Option ListTx
    txlist_tx_exec_push_front entry self = exec_locked (exec_list_push_front entry) self

    unfoldable pub txlist_tx_exec_push_back : ℕ → ListTx → Option ListTx
    txlist_tx_exec_push_back entry self = exec_locked (exec_list_push_back entry) self

    unfoldable pub txlist_tx_exec_clear : ℕ → ListTx → Option ListTx
    unfolding try_wrlock_list list_failed list_size append_list_events
    txlist_tx_exec_clear fuel self = try_wrlock_list self >>= λ locked.
        if list_failed locked
        then some locked
        else (list_size fuel locked.head locked.store >>= λ siz.
            some (append_list_events resize append_event siz exec_list_clear locked))

-- Undo functions.
unfoldable pub txlist_tx_undo_insert : ℕ → ListTx → ListTx
txlist_tx_undo_insert entry self = record self { store = list_erase entry self.store }

unfoldable pub txlist_tx_undo_erase : ℕ → ℕ → ListTx → ListTx
txlist_tx_undo_erase entry position self = record self {
  store = list_insert entry position self.store;
}

unfoldable pub txlist_tx_finish : ListTx → ListTx
unfolding rwstate_unlock
txlist_tx_finish self = record self { state = rwstate_unlock self.state }

-- undo_list_insert() and undo_list_erase() of txlib_event.c
unfoldable pub list_event_undo : ListEvent → ListTx → ListTx
unfolding txlist_tx_undo_insert txlist_tx_undo_erase
list_event_undo (list_insert_event entry) self = txlist_tx_undo_insert entry self
list_event_undo (list_erase_event entry position) self = txlist_tx_undo_erase entry position self
