-- ===== src/Rwlock/Threads.antt =====
-- src/picotm-lib-rwlock.c: any number of threads on one lock, a load or a compare-exchange at a time.
--
-- A thread that loads, tests or exchanges is at a point of its own; `Held` is what it holds. The order of
-- memory accesses is sequentially consistent.
use picotm.Prelude.{ℕ, ◌+◌, ◌-◌, ◌%◌, ◌<◌, ◌≡◌, ◌≢◌, none, some}
use picotm.Prelude.Count.{update}
use picotm.Rwlock.{
  Exchange, rw_counter, rw_index, rdlock_round, wrlock_round, uplock_round, unlock_amount,
  index_round,
}

-- enum picotm_rwstate_status
pub data Held : Type 0 where
  unlocked rdlocked wrlocked : Held

pub data Point : Type 0 where
  rest : Held → Point
  rd_loop : (n : ℕ) → Point  -- try_rdlock(), with the value last seen
  wr_loop : (n : ℕ) → Point  -- try_wrlock()
  up_loop : (n : ℕ) → Point  -- try_uplock(), of a reader
  unlocking : Held → (n : ℕ) → Point  -- picotm_rwlock_unlock(), before the subtraction
  ix_loop : Held → (from to n : ℕ) → Point  -- picotm_rwlock_cmpxchg_index()

-- One step of a thread, from a byte and a point to a byte and a point.
pub data Move (w : ℕ) : Point → ℕ → Point → Type 0 where
  rd_load : Move w (rest unlocked) w (rd_loop w)
  rd_fail : {n : ℕ} → rdlock_round n ≡ none → Move w (rd_loop n) w (rest unlocked)
  rd_win :
      {n : ℕ} {x : Exchange}
      → rdlock_round n ≡ some x
      → w ≡ x.expected
      → Move w (rd_loop n) x.desired (rest rdlocked)
  rd_lose :
      {n : ℕ} {x : Exchange}
      → rdlock_round n ≡ some x
      → w ≢ x.expected
      → Move w (rd_loop n) w (rd_loop w)
  wr_load : Move w (rest unlocked) w (wr_loop w)
  wr_fail : {n : ℕ} → wrlock_round n ≡ none → Move w (wr_loop n) w (rest unlocked)
  wr_win :
      {n : ℕ} {x : Exchange}
      → wrlock_round n ≡ some x
      → w ≡ x.expected
      → Move w (wr_loop n) x.desired (rest wrlocked)
  wr_lose :
      {n : ℕ} {x : Exchange}
      → wrlock_round n ≡ some x
      → w ≢ x.expected
      → Move w (wr_loop n) w (wr_loop w)
  up_load : Move w (rest rdlocked) w (up_loop w)
  up_fail : {n : ℕ} → uplock_round n ≡ none → Move w (up_loop n) w (rest rdlocked)
  up_win :
      {n : ℕ} {x : Exchange}
      → uplock_round n ≡ some x
      → w ≡ x.expected
      → Move w (up_loop n) x.desired (rest wrlocked)
  up_again :
      {n : ℕ} {x : Exchange}
      → uplock_round n ≡ some x
      → w ≢ x.expected
      → rw_counter n ≡ rw_counter w
      → Move w (up_loop n) w (up_loop w)
  up_lose :
      {n : ℕ} {x : Exchange}
      → uplock_round n ≡ some x
      → w ≢ x.expected
      → rw_counter n ≢ rw_counter w
      → Move w (up_loop n) w (rest rdlocked)
  un_load : {h : Held} → h ≢ unlocked → Move w (rest h) w (unlocking h w)
  un_sub :
      {h : Held} {n : ℕ}
      → Move w (unlocking h n) ((w + 256 - unlock_amount n) % 256) (rest unlocked)
  ix_load : {h : Held} (from to : ℕ) → Move w (rest h) w (ix_loop h from to w)
  ix_fail :
      {h : Held} {from to n : ℕ}
      → index_round from to n ≡ none
      → Move w (ix_loop h from to n) w (rest h)
  ix_win :
      {h : Held} {from to n : ℕ} {x : Exchange}
      → index_round from to n ≡ some x
      → w ≡ x.expected
      → Move w (ix_loop h from to n) x.desired (rest h)
  ix_changed :
      {h : Held} {from to n : ℕ} {x : Exchange}
      → index_round from to n ≡ some x
      → w ≢ x.expected
      → rw_index w ≢ rw_index n
      → Move w (ix_loop h from to n) w (rest h)
  ix_again :
      {h : Held} {from to n : ℕ} {x : Exchange}
      → index_round from to n ≡ some x
      → w ≢ x.expected
      → rw_index w ≡ rw_index n
      → Move w (ix_loop h from to n) w (ix_loop h from to w)

pub record System : Type 0 where
  pub word : ℕ
  pub at : ℕ → Point

-- A step of one of the first `k` threads.
pub data Step (k : ℕ) (s : System) : System → Type 0 where
  move :
      (i : ℕ) {w : ℕ} {p : Point}
      → i < k
      → Move s.word (s.at i) w p
      → Step k s (record { word = w; at = update s.at i p })

-- picotm_rwlock_init(), with no thread at work.
abbrev pub init : System
init = record { word = 0; at = λ _. rest unlocked }

pub data Reach (k : ℕ) : System → Type 0 where
  start : Reach k init
  later : {s t : System} → Reach k s → Step k s t → Reach k t
