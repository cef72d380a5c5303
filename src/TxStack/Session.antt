-- ===== src/TxStack/Session.antt =====
-- modules/txlib/src/txstack_tx.c: what a transaction does on one stack, from its first operation to its
-- commit or its rollback, and the same operations on a plain stack.
use picotm.Prelude.{
  ℕ, ◌≡◌, arith, inl, inr, Bool-cases, none-ne-some, some-injective, true, false, Option, none,
  some, List, [], ◌∷◌, ◌++◌, if◌then◌else◌, ◌>>=◌,
}
use picotm.Error.{Error, is_set}
use picotm.Rwlock.Wait.{Attempt}
use picotm.Rwlock.State.{Rwstate}
use picotm.TxLib.{member, txlib_tx_append_events, log_event, pop_list, error_of, tx_failed}
use picotm.TxLib.Logged.{logged, try_wrlock_tx-state}
use picotm.TxStack.{
  StackEvent, stack_push, stack_pop, exec_stack_push, exec_stack_pop, StackTx, txstack_tx_exec_push,
  txstack_tx_exec_pop, event_apply, event_undo,
}

pub data StackOp : Type 0 where
  push : (entry : ℕ) → StackOp
  pop : StackOp

-- A plain stack. `none` is a pop from the empty stack, or a push of an entry that stands in the stack,
-- which the source asserts not to happen.
abbrev pub run_op : StackOp → List ℕ → Option (List ℕ)
run_op (push entry) view = if member entry view then none else some (entry ∷ view)
run_op pop [] = none
run_op pop (x ∷ view) = some view

abbrev pub run_ops : List StackOp → List ℕ → Option (List ℕ)
run_ops [] view = some view
run_ops (op ∷ ops) view = run_op op view >>= λ next. run_ops ops next

pub run_op-push :
    (entry : ℕ) (view next : List ℕ)
    → run_op (push entry) view ≡ some next
    → (member entry view ≡ false) × (entry ∷ view ≡ next)
run_op-push entry view next h = elim (Bool-cases (member entry view)) [
  | inl bad ↦ absurd (none-ne-some _ (rw bad at h))
  | inr good ↦ (good, some-injective _ _ (rw good at h))
]

module _ (lock : ℕ) (wait : Attempt → Attempt) (resize : Error → Error)
    (append_event : ℕ → Error → Error) where
  abbrev pub exec_op : StackOp → StackTx → Option StackTx
  exec_op (push entry) self = txstack_tx_exec_push resize append_event entry self
  exec_op pop self = txstack_tx_exec_pop resize append_event lock wait self

  -- The operations of a transaction, up to the first error.
  abbrev pub exec_ops : List StackOp → StackTx → Option StackTx
  exec_ops [] self = some self
  exec_ops (op ∷ ops) self = exec_op op self >>= λ q. if tx_failed q then some q else exec_ops ops q

-- Apply the events in the order of the log.
abbrev pub apply_all : List StackEvent → StackTx → StackTx
apply_all [] self = self
apply_all (ev ∷ evs) self = apply_all evs (event_apply ev self)

-- Undo the events from the last one of the log to the first.
abbrev pub undo_all : List StackEvent → StackTx → StackTx
undo_all [] self = self
undo_all (ev ∷ evs) self = event_undo ev (undo_all evs self)

module _ (resize : Error → Error) (append_event : ℕ → Error → Error) where
  pub exec_push-logged :
      (entry : ℕ) (self : StackTx)
      → member entry (self.local_entries ++ self.shared_entries) ≡ false
      → txstack_tx_exec_push resize append_event entry self
        ≡ some (
            logged resize append_event self
              (stack_push entry)
              (entry ∷ self.local_entries)
              self.shared_entries)
  unfolding txstack_tx_exec_push txlib_tx_append_events exec_stack_push log_event tx_failed
  exec_push-logged entry self fresh = ground arith

  pub exec_pop-local :
      (lock : ℕ) (wait : Attempt → Attempt) (x : ℕ) (local shared : List ℕ) (self : StackTx)
      → txstack_tx_exec_pop resize append_event lock wait
          (record self { local_entries = x ∷ local; shared_entries = shared })
        ≡ some (
            if is_set (error_of self)
            then record self { local_entries = x ∷ local; shared_entries = shared }
            else logged resize append_event
                (record self { local_entries = x ∷ local; shared_entries = shared })
                (stack_pop x true)
                local
                shared)
  unfolding txstack_tx_exec_pop txlib_tx_append_events exec_stack_pop log_event tx_failed pop_list
  exec_pop-local lock wait x local shared self = ground arith

  pub exec_pop-shared :
      (lock : ℕ) (wait : Attempt → Attempt) (x : ℕ) (shared : List ℕ) (self : StackTx)
      → (s : Rwstate) × (txstack_tx_exec_pop resize append_event lock wait
            (record self { local_entries = []; shared_entries = x ∷ shared })
          ≡ some (
              if is_set s.attempt.error
              then record self { local_entries = []; shared_entries = x ∷ shared; state = s }
              else logged resize append_event
                  (record self { local_entries = []; shared_entries = x ∷ shared; state = s })
                  (stack_pop x false)
                  []
                  shared))
  unfolding txstack_tx_exec_pop txlib_tx_append_events exec_stack_pop log_event tx_failed pop_list
  exec_pop-shared lock wait x shared self =
      let start = record self { local_entries = []; shared_entries = x ∷ shared } in
      let (s, e) = try_wrlock_tx-state lock wait start in (s, rw e (ground arith))
