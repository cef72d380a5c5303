-- ===== src/Rwlock/State.antt =====
-- src/picotm-lib-rwstate.c: what one transaction has of a lock.
use picotm.Prelude.{ℕ, Bool, true, false, Option, some, if◌then◌else◌, ◌>>=◌}
use picotm.Error.{is_set}
use picotm.Rwlock.{unlock_word}
use picotm.Rwlock.Threads.{Held, unlocked, rdlocked, wrlocked}
use picotm.Rwlock.Wait.{Attempt, rwlock_try_rdlock, rwlock_try_wrlock}

-- The transaction's status, with the lock's byte and the error.
pub record Rwstate : Type 0 where
  pub status : Held
  pub attempt : Attempt

abbrev pub is_unlocked : Held → Bool
is_unlocked unlocked = true
is_unlocked _ = false

abbrev pub is_rdlocked : Held → Bool
is_rdlocked rdlocked = true
is_rdlocked _ = false

abbrev pub is_wrlocked : Held → Bool
is_wrlocked wrlocked = true
is_wrlocked _ = false

-- The status after an attempt on the lock: the new one, unless there is an error.
abbrev pub conclude : Held → Held → Attempt → Rwstate
conclude old new a = record { status = if is_set a.error then old else new; attempt = a }

module _ (lock : ℕ) (wait : Attempt → Attempt) where
  unfoldable pub rwstate_try_rdlock : Rwstate → Option Rwstate
  rwstate_try_rdlock self =
      if is_unlocked self.status
      then (rwlock_try_rdlock lock wait self.attempt >>= λ a.
          some (conclude self.status rdlocked a))
      else some self

  unfoldable pub rwstate_try_wrlock : Rwstate → Option Rwstate
  rwstate_try_wrlock self =
      if is_wrlocked self.status
      then some self
      else (rwlock_try_wrlock lock wait (is_rdlocked self.status) self.attempt >>= λ a.
          some (conclude self.status wrlocked a))

unfoldable pub rwstate_unlock : Rwstate → Rwstate
rwstate_unlock self = if is_unlocked self.status then self else (record {
  status = unlocked;
  attempt = record (self.attempt) { word = unlock_word self.attempt.word };
})
