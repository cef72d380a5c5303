-- ===== src/TxQueue/Session.antt =====
-- modules/txlib/src/txqueue_tx.c: what a transaction does on one queue, from its first operation to its commit,
-- and the same operations on a plain queue.
use picotm.Prelude.{
  inl, inr, Bool-cases, true, false, none-ne-some, some-injective, ℕ, ◌≡◌, refl, arith, Option,
  none, some, List, [], ◌∷◌, ◌++◌, if◌then◌else◌, ◌>>=◌,
}
use picotm.Error.{Error, is_set}
use picotm.Rwlock.Wait.{Attempt}
use picotm.Rwlock.State.{Rwstate}
use picotm.TxLib.{member, tx_failed, pop_list, error_of, log_event, txlib_tx_append_events}
use picotm.TxLib.Logged.{logged, try_rdlock_tx-state, try_wrlock_tx-state}
use picotm.TxQueue.{
  QueueEvent, queue_push, queue_pop, QueueTx, queue_event_undo, exec_queue_push, exec_queue_pop,
  pop_rdlocked, txqueue_tx_exec_push, txqueue_tx_exec_pop, queue_event_apply,
}

pub data QueueOp : Type 0 where
  push : (entry : ℕ) → QueueOp
  pop : QueueOp

-- A plain queue. `none` is a pop from the empty queue, or a push of an entry that stands in the queue, which
-- the source asserts not to happen.
abbrev pub run_op : QueueOp → List ℕ → Option (List ℕ)
run_op (push entry) view = if member entry view then none else some (view ++ entry ∷ [])
run_op pop [] = none
run_op pop (x ∷ view) = some view

abbrev pub run_ops : List QueueOp → List ℕ → Option (List ℕ)
run_ops [] view = some view
run_ops (op ∷ ops) view = run_op op view >>= λ next. run_ops ops next

pub run_op-push :
    (entry : ℕ) (view next : List ℕ)
    → run_op (push entry) view ≡ some next
    → (member entry view ≡ false) × (view ++ entry ∷ [] ≡ next)
run_op-push entry view next h = elim (Bool-cases (member entry view)) [
  | inl bad ↦ absurd (none-ne-some _ (rw bad at h))
  | inr good ↦ (good, some-injective _ _ (rw good at h))
]

module _ (lock : ℕ) (wait : Attempt → Attempt) (resize : Error → Error)
    (append_event : ℕ → Error → Error) where
  abbrev pub exec_op : QueueOp → QueueTx → Option QueueTx
  exec_op (push entry) self = txqueue_tx_exec_push resize append_event entry self
  exec_op pop self = txqueue_tx_exec_pop resize append_event lock wait self

  -- The operations of a transaction, up to the first error.
  abbrev pub exec_ops : List QueueOp → QueueTx → Option QueueTx
  exec_ops [] self = some self
  exec_ops (op ∷ ops) self = exec_op op self >>= λ q. if tx_failed q then some q else exec_ops ops q

-- Apply the events in the order of the log.
abbrev pub apply_all : List QueueEvent → QueueTx → QueueTx
apply_all [] self = self
apply_all (ev ∷ evs) self = apply_all evs (queue_event_apply ev self)

-- Undo the events from the last one of the log to the first.
abbrev pub undo_all : List QueueEvent → QueueTx → QueueTx
undo_all [] self = self
undo_all (ev ∷ evs) self = queue_event_undo ev (undo_all evs self)

module _ (resize : Error → Error) (append_event : ℕ → Error → Error) where
  pub exec_push-logged :
      (entry : ℕ) (self : QueueTx)
      → txqueue_tx_exec_push resize append_event entry self
        ≡ some (
            logged resize append_event self
              (queue_push entry)
              (self.local_entries ++ entry ∷ [])
              self.shared_entries)
  unfolding txqueue_tx_exec_push txlib_tx_append_events exec_queue_push log_event tx_failed
  exec_push-logged entry self = ground arith

  -- A pop ends after an error of one of the two locks, or is logged.
  pub pop_rdlocked-local :
      (lock : ℕ) (wait : Attempt → Attempt) (x : ℕ) (local : List ℕ) (self : QueueTx)
      → pop_rdlocked resize append_event lock wait
          (record self { local_entries = x ∷ local; shared_entries = [] })
        ≡ some (
            if is_set (error_of self)
            then record self { local_entries = x ∷ local; shared_entries = [] }
            else logged resize append_event
                (record self { local_entries = x ∷ local; shared_entries = [] })
                (queue_pop x true)
                local
                [])
  unfolding pop_rdlocked txlib_tx_append_events exec_queue_pop log_event tx_failed pop_list
  pop_rdlocked-local lock wait x local self = ground arith

  pub pop_rdlocked-shared :
      (lock : ℕ) (wait : Attempt → Attempt) (x : ℕ) (local shared : List ℕ) (self : QueueTx)
      → (s : Rwstate) × (pop_rdlocked resize append_event lock wait
            (record self { local_entries = local; shared_entries = x ∷ shared })
          ≡ some (
              if is_set s.attempt.error
              then record self { local_entries = local; shared_entries = x ∷ shared; state = s }
              else logged resize append_event
                  (record self { local_entries = local; shared_entries = x ∷ shared; state = s })
                  (queue_pop x false)
                  local
                  shared))
  unfolding pop_rdlocked txlib_tx_append_events exec_queue_pop log_event tx_failed pop_list
  pop_rdlocked-shared lock wait x local shared self =
      let start = record self { local_entries = local; shared_entries = x ∷ shared } in
      let (s, e) = try_wrlock_tx-state lock wait start in (s, rw e (ground arith))

  -- A pop takes the reader lock first, and ends if that reports an error.
  pub exec_pop-rdlocked :
      (lock : ℕ) (wait : Attempt → Attempt) (self : QueueTx)
      → (s : Rwstate) × (txqueue_tx_exec_pop resize append_event lock wait self ≡ (
          if is_set s.attempt.error
          then some (record self { state = s })
          else pop_rdlocked resize append_event lock wait (record self { state = s })))
  unfolding txqueue_tx_exec_pop tx_failed
  exec_pop-rdlocked lock wait self =
      let (s, e) = try_rdlock_tx-state lock wait self in (s, rw e refl)
