-- ===== src/Rwlock/Session.antt =====
-- src/picotm-lib-rwstate.c, on the byte of src/picotm-lib-rwlock.c: a transaction that finishes gives
-- back what it took of the lock.
use picotm.Prelude.{ℕ, ◌<◌, ◌≤◌, ◌≡◌, Bool, true, false, Option}
use picotm.Error.{Error}
use picotm.Rwlock.{rw_counter, rw_index}
use picotm.Rwlock.Threads.{Held, unlocked, rdlocked, wrlocked}
use picotm.Rwlock.Wait.{Attempt}
use picotm.Rwlock.State.{Rwstate, rwstate_try_rdlock, rwstate_try_wrlock}

-- What a transaction with a status counts for in the lock byte.
abbrev pub share : Held → ℕ
share unlocked = 0
share rdlocked = 1
share wrlocked = 15

-- The byte counts the share.
abbrev pub Consistent : Held → ℕ → Type 0
Consistent unlocked w = 0 ≤ w
Consistent rdlocked w = (0 < rw_counter w) × (rw_counter w < 15)
Consistent wrlocked w = rw_counter w ≡ 15

-- The lock is to be had at once.
abbrev pub Enters : (for_writing : Bool) → Held → ℕ → Type 0
Enters true unlocked w = w ≡ 0
Enters true rdlocked w = rw_counter w ≡ 1
Enters true wrlocked w = 0 ≤ w
Enters false unlocked w = (rw_counter w < 14) × (rw_index w ≡ 0)
Enters false rdlocked w = 0 ≤ w
Enters false wrlocked w = 0 ≤ w

abbrev pub holding : Held → ℕ → Error → Rwstate
holding h w e = record { status = h; attempt = record { word = w; error = e } }

module _ (lock : ℕ) (wait : Attempt → Attempt) where
  -- To lock a lock for writing, or for reading.
  abbrev pub rwstate_try_lock : (for_writing : Bool) → Rwstate → Option Rwstate
  rwstate_try_lock true self = rwstate_try_wrlock lock wait self
  rwstate_try_lock false self = rwstate_try_rdlock lock wait self
