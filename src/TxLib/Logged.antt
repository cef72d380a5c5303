-- ===== src/TxLib/Logged.antt =====
-- modules/txlib/src/txlib_tx.c: what an operation leaves when its event is appended.
use picotm.Prelude.{ℕ, ◌≡◌, ap, some, List, [], ◌∷◌, ◌++◌, length, if◌then◌else◌, ◌>>=◌}
use picotm.Error.{Error, is_set}
use picotm.Rwlock.Wait.{Attempt}
use picotm.Rwlock.State.{Rwstate, rwstate_try_rdlock, rwstate_try_wrlock}
use picotm.Rwlock.Accounting.{rwstate_try_rdlock_lem, rwstate_try_wrlock_lem}
use picotm.TxLib.{LibTx, error_of, with_error, try_rdlock_tx, try_wrlock_tx}

-- To lock for writing comes back, and changes the state of the lock only.
pub try_wrlock_tx-state :
    {E : Type 0} (lock : ℕ) (wait : Attempt → Attempt) (self : LibTx E)
    → (s : Rwstate) × (try_wrlock_tx lock wait self ≡ some (record self { state = s }))
unfolding try_wrlock_tx
try_wrlock_tx-state lock wait self =
    let (s, e) = locked self.state in (s, ap (λ o. o >>= λ t. some (record self { state = t })) e)
  where
    locked : (st : Rwstate) → (s : Rwstate) × (rwstate_try_wrlock lock wait st ≡ some s)
    locked st = (_, rwstate_try_wrlock_lem lock wait st.status st.attempt)

-- To lock for reading comes back, and changes the state of the lock only.
pub try_rdlock_tx-state :
    {E : Type 0} (lock : ℕ) (wait : Attempt → Attempt) (self : LibTx E)
    → (s : Rwstate) × (try_rdlock_tx lock wait self ≡ some (record self { state = s }))
unfolding try_rdlock_tx
try_rdlock_tx-state lock wait self =
    let (s, e) = locked self.state in (s, ap (λ o. o >>= λ t. some (record self { state = t })) e)
  where
    locked : (st : Rwstate) → (s : Rwstate) × (rwstate_try_rdlock lock wait st ≡ some s)
    locked st = (_, rwstate_try_rdlock_lem lock wait st.status st.attempt)

module _ {E : Type 0} (resize : Error → Error) (append_event : ℕ → Error → Error) where
  -- After an operation: its event with the entries that it leaves in the two stacks, unless the growth of
  -- the log fails, and then nothing has happened, or the append, and then the event is missing.
  abbrev pub logged : LibTx E → E → List ℕ → List ℕ → LibTx E
  logged self ev local shared =
      let grown = resize (error_of self) in
      let appended = append_event (length self.events) grown in
      if is_set grown
      then with_error self grown
      else if is_set appended
      then record (with_error self appended) { local_entries = local; shared_entries = shared }
      else (record (with_error self appended) {
        local_entries = local;
        shared_entries = shared;
        events = self.events ++ ev ∷ [];
      })
