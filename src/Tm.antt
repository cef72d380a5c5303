-- ===== src/Tm.antt =====
-- modules/tm/src: transactional memory. This file is page.c, with block.h and frame.c: the pages of a
-- transaction, one for each block of eight bytes that it uses.
--
-- Memory is a function from addresses to bytes, and a buffer one from offsets below 8. A bitmap is its
-- test of one bit. A page's `flags` are its block index and the two flag bits. `words` are the lock
-- bytes of the frames, by block index.
--
-- The argument `lookup` is the error after picotm_shared_treemap_find_value() for a block's frame, `wait`
-- that of Rwlock.Wait for the lock of a block's frame.
pub mod Transaction
pub mod Ranges
pub mod Pages
pub mod Bytes
pub mod Lock
pub mod Access
pub mod Seen
pub mod Rounds
pub mod Copies
pub mod Loops
pub mod Session
pub mod Commit
pub mod Privatize
use picotm.Prelude.{
  ℕ, zero, suc, ◌+◌, ◌-◌, ◌*◌, ◌/◌, ◌%◌, ◌^◌, Bool, true, false, not, ◌&&◌, ◌||◌, Option, none,
  some, ◌==◌, leb, if◌then◌else◌,
}
use picotm.Prelude.Count.{update}
use picotm.Error.{Error, is_set, mark_as_non_recoverable}
use picotm.Rwlock.Threads.{Held, unlocked}
use picotm.Rwlock.Wait.{Attempt}
use picotm.Rwlock.State.{
  Rwstate, is_unlocked, is_wrlocked, rwstate_try_rdlock, rwstate_try_wrlock, rwstate_unlock,
}

abbrev pub tm_block_size : ℕ
tm_block_size = 8

abbrev pub tm_block_index_at : ℕ → ℕ
tm_block_index_at addr = addr / tm_block_size

pub record Page : Type 0 where
  pub block : ℕ
  pub write_through : Bool
  pub discarded : Bool
  pub status : Held
  pub buf : ℕ → ℕ
  pub buf_bits : ℕ → Bool

-- The shared memory with the locks of its frames, and the error of the caller.
pub record Vmem : Type 0 where
  pub mem : ℕ → ℕ
  pub words : ℕ → ℕ
  pub error : Error

abbrev pub tm_page_init : ℕ → Page
tm_page_init block_index = record {
  block = block_index;
  write_through = false;
  discarded = false;
  status = unlocked;
  buf = λ _. 0;
  buf_bits = λ _. false;
}

abbrev pub tm_page_address : Page → ℕ
tm_page_address page = page.block * tm_block_size

-- TM_BLOCK_OFFSET_MASK has the eight lowest bits set.
abbrev pub all_buf_bits_set : (ℕ → Bool) → Bool
all_buf_bits_set bits = bits 0 && bits 1 && bits 2 && bits 3 && bits 4 && bits 5 && bits 6 && bits 7

abbrev pub no_buf_bits_set : (ℕ → Bool) → Bool
no_buf_bits_set bits =
    not (bits 0 || bits 1 || bits 2 || bits 3 || bits 4 || bits 5 || bits 6 || bits 7)

abbrev pub tm_page_is_complete : Page → Bool
tm_page_is_complete page = all_buf_bits_set page.buf_bits

abbrev pub tm_page_has_locked_frame : Page → Bool
tm_page_has_locked_frame page = not (is_unlocked page.status)

-- A writer lock counts as a reader lock.
abbrev pub tm_page_has_rdlocked_frame : Page → Bool
tm_page_has_rdlocked_frame page = not (is_unlocked page.status)

abbrev pub tm_page_has_wrlocked_frame : Page → Bool
tm_page_has_wrlocked_frame page = is_wrlocked page.status

-- The buffer of the frame: tm_frame_buffer() is the address of the block.
abbrev pub frame_buffer : Page → Vmem → ℕ → ℕ
frame_buffer page vmem i = vmem.mem (tm_page_address page + i)

-- tm_page_buffer(), read at an offset
abbrev pub tm_page_buffer : Page → Vmem → ℕ → ℕ
tm_page_buffer page vmem i = if page.write_through then frame_buffer page vmem i else page.buf i

-- The memory with some bytes of a block's frame replaced.
abbrev pub write_frame : Page → (ℕ → Bool) → Vmem → ℕ → ℕ
write_frame page bits vmem addr =
    if tm_block_index_at addr == page.block
    then (if bits (addr % tm_block_size) then page.buf (addr % tm_block_size) else vmem.mem addr)
    else vmem.mem addr

module _ (lookup : ℕ → Error → Error) where
  -- With a frame found; without one the error is marked.
  abbrev pub acquired : Page → Vmem → Error
  acquired page vmem = lookup page.block vmem.error

  abbrev pub not_acquired : Page → Vmem → Vmem
  not_acquired page vmem = record vmem { error = mark_as_non_recoverable (acquired page vmem) }

  -- The first branch copies the whole block at once.
  abbrev pub loaded_buf : Page → (ℕ → Bool) → Vmem → ℕ → ℕ
  loaded_buf page bits vmem i =
      if all_buf_bits_set bits && no_buf_bits_set page.buf_bits
      then frame_buffer page vmem i
      else if bits i && not (page.buf_bits i)
      then frame_buffer page vmem i
      else page.buf i

  unfoldable pub tm_page_ld : Page → (ℕ → Bool) → Vmem → Page × Vmem
  tm_page_ld page bits vmem =
      if is_set (acquired page vmem) then (page, not_acquired page vmem) else (
        record page { buf = loaded_buf page bits vmem; buf_bits = λ i. page.buf_bits i || bits i },
        record vmem { error = acquired page vmem },
      )

  -- The first branch copies the whole block at once.
  unfoldable pub tm_page_st : Page → (ℕ → Bool) → Vmem → Vmem
  tm_page_st page bits vmem =
      if is_set (acquired page vmem) then not_acquired page vmem else (record vmem {
        mem =
            if all_buf_bits_set bits && all_buf_bits_set page.buf_bits
            then write_frame page (λ i. true) vmem
            else write_frame page (λ i. bits i && page.buf_bits i) vmem;
        error = acquired page vmem;
      })

  -- Three exclusive-ors, or three copies, exchange two bytes.
  unfoldable pub tm_page_xchg : Page → (ℕ → Bool) → Vmem → Page × Vmem
  tm_page_xchg page bits vmem =
      let chosen =
        if all_buf_bits_set bits && all_buf_bits_set page.buf_bits
        then (λ (i : ℕ). true)
        else (λ (i : ℕ). bits i && page.buf_bits i) in
      if is_set (acquired page vmem) then (page, not_acquired page vmem) else (
        record page { buf = λ i. if chosen i then frame_buffer page vmem i else page.buf i },
        record vmem { mem = write_frame page chosen vmem; error = acquired page vmem },
      )

  -- The loop of tm_page_ld_c() from an offset on; the answer is whether it was left by the `break`.
  ld_c_from : (rounds : ℕ) → ℕ → (ℕ → Bool) → ℕ → Vmem → Page → Page × Bool
  ld_c_from zero i bits c vmem page = (page, false)
  ld_c_from (suc rounds) i bits c vmem page =
      let loads = bits i && not (page.buf_bits i) in
      let next =
        if loads
        then (record page {
          buf = update page.buf i (frame_buffer page vmem i);
          buf_bits = update page.buf_bits i true;
        })
        else page in
      let rest = ld_c_from rounds (suc i) bits c vmem next in
      if next.buf_bits i && frame_buffer page vmem i == c then (next, true) else rest

  unfoldable pub tm_page_ld_c : Page → (ℕ → Bool) → ℕ → Vmem → Page × Bool × Vmem
  unfolding ld_c_from
  tm_page_ld_c page bits c vmem =
      let (next, found) = ld_c_from tm_block_size 0 bits c vmem page in
      if is_set (acquired page vmem)
      then (page, false, not_acquired page vmem)
      else (next, found, record vmem { error = acquired page vmem })

  -- The loop of tm_page_xchg_c() from an offset on.
  xchg_c_from : (rounds : ℕ) → ℕ → (ℕ → Bool) → ℕ → Page × Vmem → Page × Bool × Vmem
  xchg_c_from zero i bits c (page, vmem) = (page, false, vmem)
  xchg_c_from (suc rounds) i bits c (page, vmem) =
      let byte = frame_buffer page vmem i in
      let next =
        if bits i && page.buf_bits i
        then (
          record page { buf = update page.buf i byte },
          record vmem { mem = update vmem.mem (tm_page_address page + i) (page.buf i) },
        )
        else (page, vmem) in
      let rest = xchg_c_from rounds (suc i) bits c next in
      if byte == c then (page, true, vmem) else rest

  unfoldable pub tm_page_xchg_c : Page → (ℕ → Bool) → ℕ → Vmem → Page × Bool × Vmem
  unfolding xchg_c_from
  tm_page_xchg_c page bits c vmem =
      if is_set (acquired page vmem)
      then (page, false, not_acquired page vmem)
      else xchg_c_from tm_block_size 0 bits c (page, record vmem { error = acquired page vmem })

  -- What an attempt on the lock of a frame leaves. It always comes back, so that `none` does not occur.
  unfoldable pub after_attempt : Page → Vmem → Option Rwstate → Page × Vmem
  after_attempt page vmem none = (page, vmem)
  after_attempt page vmem (some s) = (
    record page { status = s.status },
    record vmem { words = update vmem.words page.block s.attempt.word; error = s.attempt.error },
  )

  abbrev rwstate_of : Page → Vmem → Rwstate
  rwstate_of page vmem = record {
    status = page.status;
    attempt = record { word = vmem.words page.block; error = acquired page vmem };
  }

  module _ (wait : ℕ → Attempt → Attempt) where
    unfoldable pub tm_page_try_rdlock_frame : Page → Vmem → Page × Vmem
    unfolding after_attempt
    tm_page_try_rdlock_frame page vmem =
        if is_set (acquired page vmem)
        then (page, record vmem { error = acquired page vmem })
        else (after_attempt page vmem
            (rwstate_try_rdlock page.block (wait page.block) (rwstate_of page vmem)))

    unfoldable pub tm_page_try_wrlock_frame : Page → Vmem → Page × Vmem
    unfolding after_attempt
    tm_page_try_wrlock_frame page vmem =
        if is_set (acquired page vmem)
        then (page, record vmem { error = acquired page vmem })
        else (after_attempt page vmem
            (rwstate_try_wrlock page.block (wait page.block) (rwstate_of page vmem)))

  unfoldable pub tm_page_unlock_frame : Page → Vmem → Page × Vmem
  unfolding after_attempt
  tm_page_unlock_frame page vmem =
      if is_set (acquired page vmem)
      then (page, not_acquired page vmem)
      else after_attempt page vmem (some (rwstate_unlock (rwstate_of page vmem)))
