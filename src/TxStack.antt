-- ===== src/TxStack.antt =====
-- modules/txlib/src/txstack_tx.c, txstack_state.c and txstack_entry.c, with txlib_tx_append_events3() of
-- txlib_tx.c and the dispatch of txlib_event.c: a stack that a transaction changes.
--
-- An entry is its address. A chain of entries from a stack's head to its bottom is the list of them, top
-- first; to follow `prev` of the bottom leads back to the head. `none` is the fault of a pop from an
-- empty stack, where the source takes the head for an entry, or of a push of an entry that stands in one of the
-- two stacks, against an assertion of txstack_entry_insert().
pub mod Commit
pub mod Rollback
pub mod Session
use picotm.Prelude.{
  ℕ, zero, suc, ◌+◌, Bool, true, false, not, Option, none, some, List, [], ◌∷◌, ◌++◌, length,
  reverse, ◌==◌, if◌then◌else◌, ◌>>=◌,
}
use picotm.Error.{Error, is_set}
use picotm.Rwlock.Wait.{Attempt}
use picotm.Rwlock.State.{rwstate_unlock}
use picotm.TxLib.{
  LibTx, member, tx_failed, is_empty, top, pop_list, try_rdlock_tx, try_wrlock_tx,
  txlib_tx_append_events,
}

pub data StackEvent : Type 0 where
  stack_push : (entry : ℕ) → StackEvent
  stack_pop : (entry : ℕ) (use_local_stack : Bool) → StackEvent

abbrev pub StackTx : Type 0
StackTx = LibTx StackEvent

module _ (lock : ℕ) (wait : Attempt → Attempt) where
  -- The answer is whether the stack is empty, the size, or the entry at the top, with the new state.
  unfoldable pub txstack_tx_exec_empty : StackTx → Option (Bool × StackTx)
  txstack_tx_exec_empty self =
      if not (is_empty self.local_entries)
      then some (false, self)
      else (try_rdlock_tx lock wait self >>= λ q.
          some (if tx_failed q then false else is_empty q.shared_entries, q))

  unfoldable pub txstack_tx_exec_size : StackTx → Option (ℕ × StackTx)
  txstack_tx_exec_size self = try_rdlock_tx lock wait self >>= λ q.
      some (if tx_failed q then 0 else length self.local_entries + length q.shared_entries, q)

  unfoldable pub txstack_tx_exec_top : StackTx → Option (Option ℕ × StackTx)
  txstack_tx_exec_top self =
      if not (is_empty self.local_entries)
      then some (top self.local_entries, self)
      else (try_rdlock_tx lock wait self >>= λ q.
          some (if tx_failed q then none else top q.shared_entries, q))

unfoldable pub exec_stack_pop : Bool → StackTx → Option (StackEvent × StackTx)
unfolding pop_list
exec_stack_pop true self = pop_list self.local_entries >>= λ p.
    some (stack_pop p.0 true, record self { local_entries = p.1 })
exec_stack_pop false self = pop_list self.shared_entries >>= λ p.
    some (stack_pop p.0 false, record self { shared_entries = p.1 })

-- `none` is a failed assertion of txstack_entry_insert(): the entry stands in a stack.
unfoldable pub exec_stack_push : ℕ → StackTx → Option (StackEvent × StackTx)
exec_stack_push entry self =
    if member entry (self.local_entries ++ self.shared_entries)
    then none
    else some (stack_push entry, record self { local_entries = entry ∷ self.local_entries })

module _ (resize : Error → Error) (append_event : ℕ → Error → Error) where
  unfoldable pub txstack_tx_exec_push : ℕ → StackTx → Option StackTx
  unfolding exec_stack_push
  txstack_tx_exec_push entry self =
      txlib_tx_append_events resize append_event (exec_stack_push entry) self

  unfoldable pub txstack_tx_exec_pop : ℕ → (Attempt → Attempt) → StackTx → Option StackTx
  txstack_tx_exec_pop lock wait self =
      let use_local_stack = not (is_empty self.local_entries) in
      (if use_local_stack then some self else try_wrlock_tx lock wait self) >>= λ q.
      if tx_failed q
      then some q
      else txlib_tx_append_events resize append_event (exec_stack_pop use_local_stack) q

-- The chain without its bottom, and the bottom.
unfoldable pub unsnoc : List ℕ → Option (List ℕ × ℕ)
unsnoc [] = none
unsnoc (x ∷ xs) = elim (unsnoc xs) [ none ↦ some ([], x) | some (ys, b) ↦ some (x ∷ ys, b) ]

-- The entry stands at the bottom of the local stack, so that its `prev` is the head.
move_bottom : ℕ → StackTx → Option (List ℕ × ℕ) → StackTx
move_bottom entry self none = self
move_bottom entry self (some (rest, bottom)) =
    if bottom == entry
    then record self { local_entries = rest; shared_entries = entry ∷ self.shared_entries }
    else self

unfoldable pub txstack_tx_apply_push : ℕ → StackTx → StackTx
unfolding move_bottom
txstack_tx_apply_push entry self = move_bottom entry self (unsnoc self.local_entries)

abbrev pub without_top : List ℕ → List ℕ
without_top [] = []
without_top (x ∷ xs) = xs

-- The entry is the top of the local stack, as the source asserts.
unfoldable pub txstack_tx_undo_push : StackTx → StackTx
txstack_tx_undo_push self = record self { local_entries = without_top self.local_entries }

unfoldable pub txstack_tx_undo_pop : ℕ → Bool → StackTx → StackTx
txstack_tx_undo_pop entry true self = record self { local_entries = entry ∷ self.local_entries }
txstack_tx_undo_pop entry false self = record self { shared_entries = entry ∷ self.shared_entries }

-- txlib_event_apply() and txlib_event_undo()
unfoldable pub event_apply : StackEvent → StackTx → StackTx
event_apply (stack_push entry) self = txstack_tx_apply_push entry self
event_apply (stack_pop entry use_local_stack) self = self

unfoldable pub event_undo : StackEvent → StackTx → StackTx
event_undo (stack_push entry) self = txstack_tx_undo_push self
event_undo (stack_pop entry use_local_stack) self = txstack_tx_undo_pop entry use_local_stack self

unfoldable pub txstack_tx_lock : ℕ → (Attempt → Attempt) → StackTx → Option StackTx
txstack_tx_lock lock wait self =
    if is_empty self.local_entries then some self else try_wrlock_tx lock wait self

unfoldable pub txstack_tx_finish : StackTx → StackTx
txstack_tx_finish self = record self { state = rwstate_unlock self.state }
