-- ===== src/TxLib.antt =====
-- modules/txlib/src/txlib_tx.c: what the transactions on a stack and on a queue share, with the append of
-- their events by txlib_tx_append_events3().
--
-- An entry is its address, and a chain of entries the list of them. `none` is the fault of a pop from an
-- empty chain, where the source takes the head for an entry.
--
-- The arguments `resize` and `append_event` are the error after picotm_tabresize(), and after
-- picotm_append_event() of an event's number, `lock` and `wait` those of Rwlock.Wait.
pub mod Logged
use picotm.Prelude.{
  ℕ, Bool, true, false, Option, none, some, List, [], ◌∷◌, ◌++◌, length, ◌==◌, if◌then◌else◌, ◌>>=◌,
}
use picotm.Error.{Error, is_set}
use picotm.Rwlock.Wait.{Attempt}
use picotm.Rwlock.State.{Rwstate, rwstate_try_rdlock, rwstate_try_wrlock}

-- The transaction on one data structure: its local entries, the shared ones, the state of the structure's
-- lock with the error, and the events that have been appended, oldest first.
pub record LibTx (E : Type 0) : Type 0 where
  pub local_entries : List ℕ
  pub shared_entries : List ℕ
  pub state : Rwstate
  pub events : List E

abbrev pub is_empty : List ℕ → Bool
is_empty [] = true
is_empty (x ∷ xs) = false

abbrev pub member : ℕ → List ℕ → Bool
member entry [] = false
member entry (x ∷ xs) = if x == entry then true else member entry xs

abbrev pub top : List ℕ → Option ℕ
top [] = none
top (x ∷ xs) = some x

-- The entry that is taken off, and the rest.
unfoldable pub pop_list : List ℕ → Option (ℕ × List ℕ)
pop_list [] = none
pop_list (x ∷ xs) = some (x, xs)

module _ {E : Type 0} where
  abbrev pub error_of : LibTx E → Error
  error_of self = self.state.attempt.error

  abbrev pub with_error : LibTx E → Error → LibTx E
  with_error self e = record self {
    state = record (self.state) { attempt = record (self.state.attempt) { error = e } };
  }

  -- Whether a function with an error parameter has failed.
  unfoldable pub tx_failed : LibTx E → Bool
  unfolding is_set
  tx_failed self = is_set (error_of self)

  module _ (lock : ℕ) (wait : Attempt → Attempt) where
    abbrev in_state : LibTx E → Rwstate → LibTx E
    in_state self s = record self { state = s }

    -- The transaction's reader/writer state, on the shared stack's lock.
    unfoldable pub try_rdlock_tx : LibTx E → Option (LibTx E)
    try_rdlock_tx self = rwstate_try_rdlock lock wait self.state >>= λ s. some (in_state self s)

    unfoldable pub try_wrlock_tx : LibTx E → Option (LibTx E)
    try_wrlock_tx self = rwstate_try_wrlock lock wait self.state >>= λ s. some (in_state self s)

  module _ (resize : Error → Error) (append_event : ℕ → Error → Error) where
    -- After the operation: its event counts once picotm_append_event() reports no error.
    unfoldable pub log_event : E × LibTx E → LibTx E
    log_event (ev, self) =
        let logged = with_error self (append_event (length self.events) (error_of self)) in
        if tx_failed self
        then self
        else if tx_failed logged
        then logged
        else record logged { events = self.events ++ ev ∷ [] }

    -- txlib_tx_append_events3() for one event
    unfoldable pub txlib_tx_append_events :
        (LibTx E → Option (E × LibTx E)) → LibTx E → Option (LibTx E)
    unfolding log_event
    txlib_tx_append_events init self =
        let resized = with_error self (resize (error_of self)) in
        if tx_failed resized then some resized else (init resized >>= λ p. some (log_event p))
