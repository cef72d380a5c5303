-- ===== src/TxQueue.antt =====
-- modules/txlib/src/txqueue_tx.c, txqueue_state.c and txqueue_entry.c, with the dispatch of txlib_event.c: a
-- queue that a transaction changes.
--
-- A chain of entries from a queue's head along `next` is the list of them, front first.
pub mod Session
pub mod Commit
pub mod Rollback
use picotm.Prelude.{
  ℕ, ◌+◌, Bool, true, false, not, Option, none, some, List, [], ◌∷◌, ◌++◌, length, ◌==◌,
  if◌then◌else◌, ◌>>=◌,
}
use picotm.Error.{Error}
use picotm.Rwlock.Wait.{Attempt}
use picotm.Rwlock.State.{rwstate_unlock}
use picotm.TxLib.{
  LibTx, tx_failed, is_empty, top, pop_list, try_rdlock_tx, try_wrlock_tx, txlib_tx_append_events,
}

pub data QueueEvent : Type 0 where
  queue_push : (entry : ℕ) → QueueEvent
  queue_pop : (entry : ℕ) (use_local_queue : Bool) → QueueEvent

abbrev pub QueueTx : Type 0
QueueTx = LibTx QueueEvent

-- The last entry.
unfoldable pub back : List ℕ → Option ℕ
back [] = none
back (x ∷ xs) = elim (back xs) [ none ↦ some x | some b ↦ some b ]

module _ (lock : ℕ) (wait : Attempt → Attempt) where
  -- The answer is whether the queue is empty, the size, or the entry at the front or back, with the new
  -- state.
  unfoldable pub txqueue_tx_exec_empty : QueueTx → Option (Bool × QueueTx)
  txqueue_tx_exec_empty self =
      if not (is_empty self.local_entries)
      then some (false, self)
      else (try_rdlock_tx lock wait self >>= λ q.
          some (if tx_failed q then false else is_empty q.shared_entries, q))

  unfoldable pub txqueue_tx_exec_size : QueueTx → Option (ℕ × QueueTx)
  txqueue_tx_exec_size self = try_rdlock_tx lock wait self >>= λ q.
      some (if tx_failed q then 0 else length self.local_entries + length q.shared_entries, q)

  -- The front of an empty local queue is `none`; the source answers the head there.
  unfoldable pub txqueue_tx_exec_front : QueueTx → Option (Option ℕ × QueueTx)
  txqueue_tx_exec_front self = try_rdlock_tx lock wait self >>= λ q. some (
    if tx_failed q
        then none
        else if is_empty q.shared_entries
        then top q.local_entries
        else top q.shared_entries,
    q,
  )

  unfoldable pub txqueue_tx_exec_back : QueueTx → Option (Option ℕ × QueueTx)
  txqueue_tx_exec_back self =
      if not (is_empty self.local_entries)
      then some (back self.local_entries, self)
      else (try_rdlock_tx lock wait self >>= λ q.
          some (if tx_failed q then none else back q.shared_entries, q))

unfoldable pub exec_queue_pop : Bool → QueueTx → Option (QueueEvent × QueueTx)
exec_queue_pop true self = pop_list self.local_entries >>= λ p.
    some (queue_pop p.0 true, record self { local_entries = p.1 })
exec_queue_pop false self = pop_list self.shared_entries >>= λ p.
    some (queue_pop p.0 false, record self { shared_entries = p.1 })

unfoldable pub exec_queue_push : ℕ → QueueTx → Option (QueueEvent × QueueTx)
exec_queue_push entry self =
    some (queue_push entry, record self { local_entries = self.local_entries ++ entry ∷ [] })

module _ (resize : Error → Error) (append_event : ℕ → Error → Error) where
  unfoldable pub txqueue_tx_exec_push : ℕ → QueueTx → Option QueueTx
  unfolding exec_queue_push
  txqueue_tx_exec_push entry self =
      txlib_tx_append_events resize append_event (exec_queue_push entry) self

  -- With the reader lock: the writer lock is taken only if there are entries in the shared queue.
  unfoldable pub pop_rdlocked : ℕ → (Attempt → Attempt) → QueueTx → Option QueueTx
  pop_rdlocked lock wait self =
      let use_local_queue = is_empty self.shared_entries in
      (if use_local_queue then some self else try_wrlock_tx lock wait self) >>= λ q.
      if tx_failed q
      then some q
      else txlib_tx_append_events resize append_event (exec_queue_pop use_local_queue) q

  unfoldable pub txqueue_tx_exec_pop : ℕ → (Attempt → Attempt) → QueueTx → Option QueueTx
  unfolding pop_rdlocked
  txqueue_tx_exec_pop lock wait self =
      try_rdlock_tx lock wait self >>= λ q. if tx_failed q then some q else pop_rdlocked lock wait q

-- The front of the local queue is the entry.
move_front : ℕ → QueueTx → Option (ℕ × List ℕ) → QueueTx
move_front entry self none = self
move_front entry self (some (front, rest)) =
    if front == entry
    then record self { local_entries = rest; shared_entries = self.shared_entries ++ entry ∷ [] }
    else self

unfoldable pub txqueue_tx_apply_push : ℕ → QueueTx → QueueTx
unfolding move_front pop_list
txqueue_tx_apply_push entry self = move_front entry self (pop_list self.local_entries)

-- The chain without an entry, which stands in it once.
unfoldable pub erase : ℕ → List ℕ → List ℕ
erase entry [] = []
erase entry (x ∷ xs) = let rest = erase entry xs in if x == entry then xs else x ∷ rest

unfoldable pub txqueue_tx_undo_push : ℕ → QueueTx → QueueTx
txqueue_tx_undo_push entry self = record self { local_entries = erase entry self.local_entries }

unfoldable pub txqueue_tx_undo_pop : ℕ → Bool → QueueTx → QueueTx
txqueue_tx_undo_pop entry true self = record self { local_entries = entry ∷ self.local_entries }
txqueue_tx_undo_pop entry false self = record self { shared_entries = entry ∷ self.shared_entries }

-- txlib_event_apply() and txlib_event_undo(), on the events of queues
unfoldable pub queue_event_apply : QueueEvent → QueueTx → QueueTx
queue_event_apply (queue_push entry) self = txqueue_tx_apply_push entry self
queue_event_apply (queue_pop entry use_local_queue) self = self

unfoldable pub queue_event_undo : QueueEvent → QueueTx → QueueTx
queue_event_undo (queue_push entry) self = txqueue_tx_undo_push entry self
queue_event_undo (queue_pop entry use_local_queue) self =
    txqueue_tx_undo_pop entry use_local_queue self

unfoldable pub txqueue_tx_lock : ℕ → (Attempt → Attempt) → QueueTx → Option QueueTx
txqueue_tx_lock lock wait self =
    if is_empty self.local_entries then some self else try_wrlock_tx lock wait self

unfoldable pub txqueue_tx_finish : QueueTx → QueueTx
txqueue_tx_finish self = record self { state = rwstate_unlock self.state }
