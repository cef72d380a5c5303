-- ===== src/Rwlock.antt =====
-- src/picotm-lib-rwlock.c: the reader/writer lock that transactions share, in one byte.
--
-- The low four bits of `n` count the holders, with 15 for a writer; the high four bits are the index of
-- the first waiter. The bits of the two fields do not overlap, so that `|` of them is `+`.
--
-- Each of the source's compare-exchange loops is here the test that one round makes of the value that it
-- has read: none to give up, or the values to expect and to store. `Rwlock.Threads` interleaves the
-- rounds of many threads; `try_rdlock`, `try_wrlock` and `try_uplock` here are the loops when no other
-- thread comes between.
pub mod Threads
pub mod Exclusion
pub mod Wait
pub mod State
pub mod Accounting
pub mod Session
use picotm.Prelude.{
  ℕ, zero, suc, ◌+◌, ◌-◌, ◌*◌, ◌/◌, ◌%◌, ◌^◌, Bool, true, false, Option, none, some, ◌==◌,
  if◌then◌else◌,
}

-- uint8_t
abbrev pub u8 : ℕ → ℕ
u8 n = n % 256

abbrev pub writer_counter : ℕ
writer_counter = 15

-- n & COUNTER_BIT_MASK
abbrev pub rw_counter : ℕ → ℕ
rw_counter n = n % 16

abbrev pub rw_counter_bits : ℕ → ℕ
rw_counter_bits value = value % 16

-- (value << 4) & INDEX_BIT_MASK, which keeps four bits of the value
abbrev pub rw_index_bits : ℕ → ℕ
rw_index_bits value = value % 16 * 16

-- (n & INDEX_BIT_MASK) >> 4
abbrev pub rw_index : ℕ → ℕ
rw_index n = n / 16 % 16

-- What a round expects to find, and what it stores then.
pub record Exchange : Type 0 where
  pub expected : ℕ
  pub desired : ℕ

unfoldable pub rdlock_round : ℕ → Option Exchange
rdlock_round n =
    if rw_counter n == writer_counter
    then none
    else if rw_counter n == writer_counter - 1
    then none
    else if rw_index n == 0
    then some (record {
      expected = rw_counter_bits (rw_counter n);
      desired = rw_counter_bits (rw_counter n + 1);
    })
    else none

unfoldable pub wrlock_round : ℕ → Option Exchange
wrlock_round n =
    if rw_counter n == 0
    then if rw_index n == 0
      then some (record { expected = rw_counter_bits 0; desired = rw_counter_bits writer_counter })
      else none
    else none

unfoldable pub uplock_round : ℕ → Option Exchange
uplock_round n =
    if rw_counter n == 1
    then some (record {
      expected = rw_index_bits (rw_index n) + rw_counter_bits 1;
      desired = rw_index_bits (rw_index n) + rw_counter_bits writer_counter;
    })
    else none

-- What unlock takes off the byte.
unfoldable pub unlock_amount : ℕ → ℕ
unlock_amount n = if rw_counter n == writer_counter then writer_counter else 1

-- One round of cmpxchg_index; none if the index has changed.
unfoldable pub index_round : ℕ → ℕ → ℕ → Option Exchange
index_round expected_index desired_index n =
    if rw_index n == expected_index
    then some (record {
      expected = rw_counter_bits (rw_counter n) + rw_index_bits expected_index;
      desired = rw_counter_bits (rw_counter n) + rw_index_bits desired_index;
    })
    else none

-- A loop with no other thread between the load and the exchange: the exchange finds what was loaded.
undisturbed : Option Exchange → ℕ → Bool × ℕ
undisturbed none n = (false, n)
undisturbed (some x) n = if n == x.expected then (true, x.desired) else (false, n)

unfoldable pub try_rdlock : ℕ → Bool × ℕ
unfolding undisturbed rdlock_round
try_rdlock n = undisturbed (rdlock_round n) n

unfoldable pub try_wrlock : ℕ → Bool × ℕ
unfolding undisturbed wrlock_round
try_wrlock n = undisturbed (wrlock_round n) n

unfoldable pub try_uplock : ℕ → Bool × ℕ
unfolding undisturbed uplock_round
try_uplock n = undisturbed (uplock_round n) n

-- The byte after unlock, before waiters are woken up.
unfoldable pub unlock_word : ℕ → ℕ
unfolding unlock_amount
unlock_word n = (n + 256 - unlock_amount n) % 256

exchanged : Exchange → Bool × ℕ → Option (ℕ × ℕ)
exchanged x (true, new) = some (new, rw_index x.expected)
exchanged x (false, same) = none

-- The new byte, and the index that cmpxchg_index() returns, with no other thread. `none` is a loop without
-- an end: an exchange that fails although the byte has not changed fails again.
unfoldable pub cmpxchg_index : ℕ → ℕ → ℕ → Option (ℕ × ℕ)
unfolding undisturbed exchanged
cmpxchg_index expected_index desired_index n = elim (index_round expected_index desired_index n) [
  | none ↦ some (n, rw_index n)
  | some x ↦ exchanged x (undisturbed (some x) n)
]
