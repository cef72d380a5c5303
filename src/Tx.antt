-- ===== src/Tx.antt =====
-- src/picotm_tx.h and src/picotm_tx.c: a transaction over its registered modules.
--
-- The array `module` with `nmodules` is the list of the registered modules. `none` is an answer of the
-- walks over the modules that run out of fuel; the fuel is one more than there are modules.
pub mod Calls
pub mod Commit
pub mod Rollback
pub mod Begin
pub mod Setup
use picotm.Prelude.{
  ℕ, suc, ◌+◌, ◌%◌, ◌^◌, Bool, true, false, Option, none, some, List, [], ◌∷◌, ◌++◌, length, take,
  get_elem?, leb, ◌==◌, if◌then◌else◌, ◌>>=◌,
}
use picotm.Error.{Error, out_of_memory, set_error_code, mark_as_non_recoverable, error_initializer}
use picotm.Module.{
  Run, failed, ModuleOps, Module, module_init, module_release, module_begin, module_prepare_commit,
  module_apply, module_undo, module_apply_event, module_undo_event, module_finish,
}
use picotm.Table.{tabwalk_1, tabwalk_2}
use picotm.Event.{Event, event_initializer, events_foreach1, events_rev_foreach1}
use picotm.Log.{Log, Appended, log_append, log_clear, log_events}
use picotm.Os.{PthreadRwlock, Clock}
use picotm.LockOwner.{LockOwner, reset_timestamp}
use picotm.LockManager.{LockManager, make_irrevocable, wait_irrevocable, release_irrevocability}

pub data TxMode : Type 0 where
  revocable irrevocable : TxMode

abbrev pub max_nmodules : ℕ
max_nmodules = 256

abbrev pub tx_nretries_limit : ℕ
tx_nretries_limit = 10

pub record Tx (S : Type 0) : Type 0 where
  pub env : Option ℕ
  pub log : Log
  pub mode : TxMode
  pub nretries : ℕ
  pub lm : LockManager
  pub lo : LockOwner
  pub modules : List (Module S)

abbrev pub is_irrevocable_mode : TxMode → Bool
is_irrevocable_mode revocable = false
is_irrevocable_mode irrevocable = true

module _ {S : Type 0} where
  unfoldable pub tx_is_irrevocable : Tx S → Bool
  tx_is_irrevocable self = is_irrevocable_mode self.mode

  -- The answer is the transaction, the module's number and the error.
  unfoldable pub tx_register_module : Tx S → ModuleOps S → ℕ → Error → Tx S × ℕ × Error
  unfolding module_init
  tx_register_module self ops data_ptr e =
      if leb max_nmodules (length self.modules)
      then (self, 0, set_error_code e out_of_memory)
      else (
        record self { modules = self.modules ++ module_init ops data_ptr ∷ [] },
        length self.modules,
        e,
      )

  -- The answer has the new log; the transaction is otherwise as it was.
  unfoldable pub tx_append_event :
      (Option ℕ → ℕ → Option ℕ × ℕ) → Bool → ℕ → Tx S → ℕ → ℕ → ℕ → Error → Appended
  unfolding event_initializer
  tx_append_event realloc s_lowmem errno self id head tail e =
      log_append realloc s_lowmem errno self.log (event_initializer id head tail) e

  -- What every call-back of the walks answers: one element, or none if it failed.
  abbrev pub unless_failed : Run S → ℕ × Run S
  unless_failed r = (if failed r then 0 else 1, r)

  unfoldable pub begin_cb : Module S → Run S → ℕ × Run S
  begin_cb m r = unless_failed (module_begin m r)

  unfoldable pub finish_cb : Module S → Run S → ℕ × Run S
  finish_cb m r = unless_failed (module_finish m r)

  unfoldable pub prepare_commit_cb : Module S → Bool → Run S → ℕ × Run S
  prepare_commit_cb m is_irrevocable r = unless_failed (module_prepare_commit m is_irrevocable r)

  unfoldable pub apply_cb : Module S → Run S → ℕ × Run S
  apply_cb m r = unless_failed (module_apply m r)

  unfoldable pub undo_cb : Module S → Run S → ℕ × Run S
  undo_cb m r = unless_failed (module_undo m r)

  unfoldable pub begin_modules : List (Module S) → Run S → Option (ℕ × Run S)
  unfolding begin_cb
  begin_modules ms r = tabwalk_1 (suc (length ms)) ms begin_cb r

  unfoldable pub finish_modules : List (Module S) → Run S → Option (Run S)
  unfolding finish_cb
  finish_modules ms r = do walked ← tabwalk_1 (suc (length ms)) ms finish_cb r; some walked.1

  unfoldable pub prepare_commit_modules : List (Module S) → Bool → Run S → Option (Run S)
  unfolding prepare_commit_cb
  prepare_commit_modules ms is_irrevocable r = do
    walked ← tabwalk_2 (suc (length ms)) ms prepare_commit_cb is_irrevocable r
    some walked.1

  unfoldable pub apply_modules : List (Module S) → Run S → Option (Run S)
  unfolding apply_cb
  apply_modules ms r = do walked ← tabwalk_1 (suc (length ms)) ms apply_cb r; some walked.1

  unfoldable pub undo_modules : List (Module S) → Run S → Option (Run S)
  unfolding undo_cb
  undo_modules ms r = do walked ← tabwalk_1 (suc (length ms)) ms undo_cb r; some walked.1

  -- The module of an event. An event names a module that is registered.
  apply_at : Option (Module S) → Event → Run S → Run S
  apply_at none e r = r
  apply_at (some m) e r = module_apply_event m e.head e.tail r

  undo_at : Option (Module S) → Event → Run S → Run S
  undo_at none e r = r
  undo_at (some m) e r = module_undo_event m e.head e.tail r

  unfoldable pub apply_event : Event → List (Module S) → Run S → Run S
  unfolding apply_at
  apply_event e ms r = apply_at (get_elem? ms e.module_id) e r

  unfoldable pub undo_event : Event → List (Module S) → Run S → Run S
  unfolding undo_at
  undo_event e ms r = undo_at (get_elem? ms e.module_id) e r

  unfoldable pub apply_events : Tx S → Run S → Tx S × Run S
  apply_events self r = (
    record self { log = log_clear self.log },
    events_foreach1 (log_events self.log) self.modules apply_event r,
  )

  unfoldable pub undo_events : Tx S → Run S → Tx S × Run S
  undo_events self r = (
    record self { log = log_clear self.log },
    events_rev_foreach1 (log_events self.log) self.modules undo_event r,
  )

  abbrev pub mark : Run S → Run S
  mark r = record r { error = mark_as_non_recoverable r.error }

-- The mode that a transaction gets: irrevocable when the retries reach the limit.
unfoldable pub effective_mode : TxMode → ℕ → TxMode
effective_mode mode nretries = if nretries == tx_nretries_limit then irrevocable else mode

module _ {S : Type 0} (exclusive_lo_lock : PthreadRwlock S) where
  unfoldable pub tx_release_irrevocability : Tx S → Run S → Tx S × Run S
  tx_release_irrevocability self r =
      let (lm, r') = release_irrevocability exclusive_lo_lock self.lm self.lo r in
      (record self { lm = lm }, r')

  unfoldable pub tx_commit : Tx S → Run S → Option (Tx S × Run S)
  tx_commit self r = do
    r1 ← prepare_commit_modules self.modules (tx_is_irrevocable self) r
    if failed r1 then some (self, r1) else do
      r2 ← apply_modules self.modules r1
      if failed r2 then some (self, mark r2) else do
        let applied = apply_events self r2
        if failed applied.1 then some (applied.0, mark applied.1) else do
          r4 ← finish_modules self.modules applied.1
          if failed r4
              then some (applied.0, mark r4)
              else some (tx_release_irrevocability applied.0 r4)

  unfoldable pub tx_rollback : Tx S → Run S → Option (Tx S × Run S)
  tx_rollback self r = do
    r1 ← undo_modules self.modules r
    if failed r1 then some (tx_release_irrevocability self (mark r1)) else do
      let undone = undo_events self r1
      if failed undone.1 then some (tx_release_irrevocability undone.0 (mark undone.1)) else do
        r3 ← finish_modules self.modules undone.1
        if failed r3
            then some (tx_release_irrevocability undone.0 (mark r3))
            else some (tx_release_irrevocability undone.0 r3)

  unfoldable pub select_mode : TxMode → Tx S → Run S → LockManager × Run S
  select_mode revocable self r = wait_irrevocable exclusive_lo_lock self.lm r
  select_mode irrevocable self r = make_irrevocable exclusive_lo_lock self.lm self.lo r

  -- The label err_begin_modules: finish the modules that have begun.
  unfoldable pub err_begin_modules : Tx S → ℕ → Run S → Option (Tx S × Run S)
  err_begin_modules self nbegin r = do
    f ←
        finish_modules (take nbegin self.modules)
          (record { world = r.world; error = error_initializer })
    if failed f
        then some (self, record { world = f.world; error = mark_as_non_recoverable r.error })
        else some (tx_release_irrevocability self (record { world = f.world; error = r.error }))

  unfoldable pub tx_begin :
      Clock S → Tx S → TxMode → Bool → Option ℕ → Run S → Option (Tx S × Run S)
  unfolding effective_mode
  tx_begin clock self mode is_retry env r = do
    let nretries = if is_retry then (self.nretries + 1) % 2 ^ 64 else 0
    let mode' = effective_mode mode nretries
    let selected = select_mode mode' self r
    let self1 = record self { lm = selected.0 }
    let stamped = reset_timestamp clock self1.lo selected.1
    let self2 = record self1 { lo = stamped.0 }
    let self3 = record self2 { nretries = nretries; mode = mode'; env = env }
    if failed selected.1
        then some (self1, selected.1)
        else if failed stamped.1
        then some (tx_release_irrevocability self2 stamped.1)
        else do
          begun ← begin_modules self.modules stamped.1
          if failed begun.1 then err_begin_modules self3 begun.0 begun.1 else some (self3, begun.1)
