-- ===== src/Rwlock/Accounting.antt =====
-- src/picotm-lib-rwlock.c and src/picotm-lib-rwstate.c: what each operation does to the two fields of the
-- byte, and what an attempt on the lock leaves.
use picotm.Prelude.{
  ℕ, ◌+◌, ◌*◌, ◌-◌, ◌%◌, ◌<◌, ◌≡◌, ◌≢◌, refl, arith, Bool, true, false, inl, inr, Bool-cases, some,
  if◌then◌else◌, ◌==◌, ltb, ◌&&◌,
}
use picotm.Error.{is_set, set_conflicting}
use picotm.Rwlock.{
  rw_counter, rw_index, try_rdlock, try_wrlock, try_uplock, unlock_word, cmpxchg_index, index_round,
}
use picotm.Rwlock.Threads.{Held, unlocked, rdlocked, wrlocked}
use picotm.Rwlock.Wait.{
  Attempt, try_lock_or_wait_lem, awaited, rwlock_try_rdlock, rwlock_try_wrlock,
}
use picotm.Rwlock.State.{conclude, rwstate_try_rdlock, rwstate_try_wrlock}

-- A reader enters exactly if there is no writer, no waiter and fewer than 14 readers, and adds one to
-- the counter. Otherwise the byte stays.
pub try_rdlock_lem :
    (w : ℕ)
    → w < 256
    → try_rdlock w
      ≡ (if ltb (rw_counter w) 14 && (rw_index w == 0) then (true, w + 1) else (false, w))
unfolding try_rdlock
try_rdlock_lem w h = ground arith

-- A writer enters exactly the empty lock.
pub try_wrlock_lem : (w : ℕ) → w < 256 → try_wrlock w ≡ (if w == 0 then (true, 15) else (false, w))
unfolding try_wrlock
try_wrlock_lem w h = ground arith

-- A reader becomes the writer exactly if it is the only reader, and keeps the index of the waiters.
pub try_uplock_lem :
    (w : ℕ) → w < 256 → try_uplock w ≡ (if rw_counter w == 1 then (true, w + 14) else (false, w))
unfolding try_uplock
try_uplock_lem w h = ground arith

-- To unlock takes a reader, or the writer, off the counter, and keeps the index of the waiters.
pub unlock_word_lem :
    (w : ℕ)
    → w < 256
    → rw_counter w ≢ 0
    → (rw_counter (unlock_word w) ≡ (if rw_counter w == 15 then 0 else rw_counter w - 1))
      × (rw_index (unlock_word w) ≡ rw_index w)
unfolding unlock_word
unlock_word_lem w h pos = ground arith

-- The exchange of the index comes to an end, with the index that it found as the answer. If that was the
-- expected one, the four low bits of the desired index are stored; otherwise the index stays. The counter
-- stays in both cases.
pub cmpxchg_index_lem :
    (from to w : ℕ)
    → w < 256
    → (new : ℕ) × (cmpxchg_index from to w ≡ some (new, rw_index w))
      × (new < 256)
      × (rw_counter new ≡ rw_counter w)
      × (rw_index new ≡ (if rw_index w == from then to % 16 else rw_index w))
unfolding cmpxchg_index index_round
cmpxchg_index_lem from to w h = elim (Bool-cases (rw_index w == from)) [
  | inl same ↦
      (rw_counter w + to % 16 * 16, ground arith, omega arith, omega arith, rw same (omega arith))
  | inr other ↦ (w, ground arith, h, refl, rw other refl)
]

module _ (lock : ℕ) (wait : Attempt → Attempt) where
  -- What an attempt that is made leaves of it.
  abbrev settled : (ℕ → Bool × ℕ) → Attempt → Attempt
  settled try_lock a =
      if (try_lock a.word).0
      then record a { word = (try_lock a.word).1 }
      else if is_set (awaited lock try_lock wait a).error
      then awaited lock try_lock wait a
      else if (try_lock (awaited lock try_lock wait a).word).0
      then (record (awaited lock try_lock wait a) {
        word = (try_lock (awaited lock try_lock wait a).word).1;
      })
      else (record {
        word = (try_lock (awaited lock try_lock wait a).word).1;
        error = set_conflicting (awaited lock try_lock wait a).error (some lock);
      })

  -- To lock for reading always comes back. A transaction that holds the lock keeps it as it is; one that
  -- does not makes the attempt, and holds the lock for reading exactly if that reports no error.
  pub rwstate_try_rdlock_lem :
      (h : Held) (a : Attempt)
      → rwstate_try_rdlock lock wait (record { status = h; attempt = a })
        ≡ some (elim h [
          | unlocked ↦ conclude unlocked rdlocked (settled try_rdlock a)
          | other ↦ record { status = other; attempt = a }
        ])
  unfolding rwstate_try_rdlock rwlock_try_rdlock
  rwstate_try_rdlock_lem unlocked a = rw (try_lock_or_wait_lem lock try_rdlock wait a)
  rwstate_try_rdlock_lem rdlocked a = refl
  rwstate_try_rdlock_lem wrlocked a = refl

  -- To lock for writing always comes back. A writer keeps the lock as it is; a reader makes the attempt to
  -- become the writer, any other the attempt to enter, and holds the lock for writing exactly if that
  -- reports no error; otherwise it holds what it held.
  pub rwstate_try_wrlock_lem :
      (h : Held) (a : Attempt)
      → rwstate_try_wrlock lock wait (record { status = h; attempt = a })
        ≡ some (elim h [
          | unlocked ↦ conclude unlocked wrlocked (settled try_wrlock a)
          | rdlocked ↦ conclude rdlocked wrlocked (settled try_uplock a)
          | wrlocked ↦ record { status = wrlocked; attempt = a }
        ])
  unfolding rwstate_try_wrlock rwlock_try_wrlock
  rwstate_try_wrlock_lem unlocked a = rw (try_lock_or_wait_lem lock try_wrlock wait a)
  rwstate_try_wrlock_lem rdlocked a = rw (try_lock_or_wait_lem lock try_uplock wait a)
  rwstate_try_wrlock_lem wrlocked a = refl
