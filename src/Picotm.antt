-- ===== src/Picotm.antt =====
-- src/picotm.c and include/picotm/picotm.h: the front end that user code calls.
--
-- `Front` is the thread-local state. A longjmp() to the setjmp() of a transaction is the answer `jump` with
-- the mode, with which the macro picotm_begin calls __picotm_begin() again; `go_on` is a return to the
-- caller. The answer `none` of a function is a failed assertion, or a walk that runs out of fuel.
--
-- The argument `init_thread` is init_thread_state_fields(), which runs when a thread needs its
-- transaction for the first time.
pub mod Retry
use picotm.Prelude.{ℕ, zero, suc, Bool, true, false, not, Option, none, some, if◌then◌else◌, ◌>>=◌}
use picotm.Error.{
  Error, ErrorStatus, ErrorCode, is_set, error_initializer, set_conflicting, set_error_code,
  set_errno, clear, conflicting, revocable,
}
use picotm.Module.{Run, failed}
use picotm.Os.{PthreadRwlock, Clock}
use picotm.Tx.{Tx, TxMode, tx_begin, tx_commit, tx_rollback}
use picotm.Tx

-- enum __picotm_mode
pub data Mode : Type 0 where
  mode_start mode_retry mode_irrevocable mode_recovery mode_restart : Mode

pub data Jump : Type 0 where
  go_on : Jump
  jump : Mode → Jump

pub record Front (S : Type 0) : Type 0 where
  pub tx : Option (Tx S)
  pub error : Error

-- The answer of __picotm_begin(): whether the transaction's execution phase is entered.
pub record Begun (S : Type 0) : Type 0 where
  pub entered : Bool
  pub front : Front S
  pub world : S

-- The table tx_mode[].
abbrev pub tx_mode : Mode → TxMode
tx_mode mode_irrevocable = Tx.irrevocable
tx_mode _ = Tx.revocable

abbrev pub is_start : Mode → Bool
is_start mode_start = true
is_start _ = false

-- restart_tx_from_error()
abbrev pub restart_mode : ErrorStatus → Jump
restart_mode clear = go_on
restart_mode conflicting = jump mode_retry
restart_mode revocable = jump mode_irrevocable
restart_mode _ = jump mode_recovery

abbrev pub restart_tx_from_error : Error → Jump
restart_tx_from_error e = restart_mode e.status

abbrev pub picotm_restart : Jump
picotm_restart = jump mode_restart

abbrev pub picotm_irrevocable : Jump
picotm_irrevocable = jump mode_irrevocable

module _ {S : Type 0} where
  -- What the functions answer that put an error in the thread's state and restart.
  abbrev pub resolve_conflict : Option ℕ → Front S → Front S × Jump
  resolve_conflict lock f = (record f { error = set_conflicting f.error lock }, jump mode_retry)

  abbrev pub recover_from_error_code : ErrorCode → Front S → Front S × Jump
  recover_from_error_code hint f =
      (record f { error = set_error_code f.error hint }, jump mode_recovery)

  abbrev pub recover_from_errno : ℕ → Front S → Front S × Jump
  recover_from_errno hint f = (record f { error = set_errno f.error hint }, jump mode_recovery)

  abbrev pub recover_from_error : Error → Front S → Front S × Jump
  recover_from_error e f = (record f { error = e }, restart_tx_from_error e)

module _ {S : Type 0} (exclusive_lo_lock : PthreadRwlock S) (clock : Clock S)
    (init_thread : Run S → Tx S × Run S) where
  abbrev pub get_tx : Bool → Option (Tx S) → Run S → Option (Tx S) × Run S
  get_tx initialize (some tx) r = (some tx, r)
  get_tx initialize none r =
      let (tx, r') = init_thread r in
      if initialize then (if failed r' then none else some tx, r') else (none, r)

  abbrev pub cleared_run : S → Run S
  cleared_run w = record { world = w; error = error_initializer }

  unfoldable pub begun_with : Tx S × Run S → Begun S
  begun_with (tx, r) = record {
    entered = not (failed r);
    front = record { tx = some tx; error = r.error };
    world = r.world;
  }

  unfoldable pub not_entered : Option (Tx S) → Error → S → Begun S
  not_entered tx e w = record { entered = false; front = record { tx = tx; error = e }; world = w }

  unfoldable pub start_got : Mode → Option ℕ → Option (Tx S) × Run S → Option (Begun S)
  start_got mode env (none, r) = some (not_entered none r.error r.world)
  start_got mode env (some tx, r) =
      if failed r
      then some (not_entered (some tx) r.error r.world)
      else (tx_begin exclusive_lo_lock clock tx (tx_mode mode) (not (is_start mode)) env r
          >>= λ begun. some (begun_with begun))

  -- From the label PICOTM_MODE_START on.
  unfoldable pub start_tx : Mode → Option ℕ → Option (Tx S) → S → Option (Begun S)
  unfolding start_got begun_with not_entered
  start_tx mode env tx w = start_got mode env (get_tx true tx (cleared_run w))

  unfoldable pub rolled_back_then : Mode → Option ℕ → Tx S × Run S → Option (Begun S)
  rolled_back_then mode env (tx, r) =
      let begun = start_tx mode env (some tx) r.world in
      if failed r then some (not_entered (some tx) r.error r.world) else begun

  -- From the label PICOTM_MODE_IRREVOCABLE on.
  unfoldable pub retry_tx : Mode → Option ℕ → Option (Tx S) → S → Option (Begun S)
  unfolding rolled_back_then not_entered
  retry_tx mode env none w = none
  retry_tx mode env (some tx) w =
      tx_rollback exclusive_lo_lock tx (cleared_run w) >>= rolled_back_then mode env

  unfoldable pub recover_got : Error → Option (Tx S) × Run S → Option (Begun S)
  recover_got e (none, r) = some (not_entered none e r.world)
  recover_got e (some tx, r) =
      let undone = tx_rollback exclusive_lo_lock tx r >>= λ (tx', r').
      some (not_entered (some tx') e r'.world) in
      if failed r
      then some (not_entered (some tx) e r.world)
      else if e.is_non_recoverable
      then some (not_entered (some tx) e r.world)
      else undone

  unfoldable pub picotm_begin : Mode → Option ℕ → Front S → S → Option (Begun S)
  unfolding recover_got not_entered
  picotm_begin mode_recovery env f w = recover_got f.error (get_tx true f.tx (cleared_run w))
  picotm_begin mode_irrevocable env f w = retry_tx mode_irrevocable env f.tx w
  picotm_begin mode_retry env f w = retry_tx mode_retry env f.tx w
  picotm_begin mode_restart env f w = start_tx mode_restart env f.tx w
  picotm_begin mode_start env f w = start_tx mode_start env f.tx w

  unfoldable pub committed_with : Tx S × Run S → Front S × S × Jump
  committed_with (tx, r) = (
    record { tx = some tx; error = r.error },
    r.world,
    if failed r then restart_tx_from_error r.error else go_on,
  )

  unfoldable pub commit_got : Error → Option (Tx S) → S → Option (Front S × S × Jump)
  commit_got e none w = none
  commit_got e (some tx) w =
      tx_commit exclusive_lo_lock tx (record { world = w; error = e }) >>= λ done.
      some (committed_with done)

  -- A commit outside of a transaction is not modelled: `none` without a transaction.
  unfoldable pub picotm_commit : Front S → S → Option (Front S × S × Jump)
  unfolding commit_got committed_with
  picotm_commit f w = commit_got f.error f.tx w

  -- The macros picotm_begin and picotm_commit around a body of user code, which goes on to the commit or
  -- jumps. The answer is whether the transaction has been committed; otherwise the recovery phase begins.
  module _ (body : Front S → S → Front S × S × Jump) (env : Option ℕ) where
    unfoldable pub commit_next :
        (Mode → Front S → S → Option (Bool × Front S × S))
        → Front S × S × Jump
        → Option (Bool × Front S × S)
    commit_next again (f, w, go_on) = some (true, f, w)
    commit_next again (f, w, jump mode) = again mode f w

    unfoldable pub body_next :
        (Mode → Front S → S → Option (Bool × Front S × S))
        → Front S × S × Jump
        → Option (Bool × Front S × S)
    body_next again (f, w, go_on) = picotm_commit f w >>= commit_next again
    body_next again (f, w, jump mode) = again mode f w

    unfoldable pub run_transaction : (fuel : ℕ) → Mode → Front S → S → Option (Bool × Front S × S)
    unfolding body_next commit_next
    run_transaction zero mode f w = none
    run_transaction (suc fuel) mode f w = do
      b ← picotm_begin mode env f w
      let next = body_next (λ m g v. run_transaction fuel m g v) (body b.front b.world)
      if b.entered then next else some (false, b.front, b.world)
