-- ===== src/Tests/Locks.antt =====
-- Runs of the reader/writer lock and of the lock owners.
use picotm.Prelude.{
  ℕ, ◌+◌, ◌*◌, ◌<◌, ◌≤◌, ◌≡◌, ◌%◌, ◌^◌, ◌⊎◌, refl, arith, false, Option, none, some, [],
  if◌then◌else◌, ◌==◌,
}
use picotm.Prelude.Count.{update, count}
use picotm.Error.{is_set}
use picotm.Module.{failed}
use picotm.LockOwner.{
  LockOwner, has_flag, get_index, set_next, get_next, lock_owner_wt, lock_owner_rd, lock_owner_wr,
}
use picotm.LockOwner.Fields.{set_next_lem}
use picotm.LockManager.{
  LockManager, nlos, find_lo, found_or_grow, lfind_null, grow_lo_array, store_owner, register_owner,
}
use picotm.LockManager.Registry.{IsValid, holder}
use picotm.LockManager.Register.{register_owner_lem}
use picotm.Rwlock.{rw_counter, rw_index, cmpxchg_index, wrlock_round}
use picotm.Rwlock.Threads.{
  unlocked, wrlocked, rest, wr_loop, System, Reach, start, later, move, wr_load, wr_win, init,
}
use picotm.Rwlock.Exclusion.{held, reader, writer, mutual_exclusion, counter_lem}
use picotm.Rwlock.Wait.{Attempt}
use picotm.Rwlock.Accounting.{cmpxchg_index_lem}
use picotm.Os.{os_rwlock_wrlock, os_rwlock_unlock}
use picotm.Table.{tabresize, rndpow2}
use picotm.Tests.Data.{no_error, free_lock, owner}

-- One of two threads reads the free byte, and then enters as the writer.
abbrev looking : System
looking = record { word = 0; at = update init.at 0 (wr_loop 0) }

abbrev writing : System
writing = record { word = 15; at = update looking.at 0 (rest wrlocked) }

writing-Reach : Reach 2 writing
unfolding wrlock_round
writing-Reach =
    later (later start (move 0 (omega arith) wr_load))
      (move 0 (omega arith) (wr_win {x = record { expected = 0; desired = 15 }} refl refl))

mutual_exclusion_example : held (writing.at 1) ≡ unlocked
mutual_exclusion_example =
    mutual_exclusion 0 1 writing-Reach (omega arith) (omega arith) (omega arith) refl

counter_lem_example :
    ((count writer 2 writing.at ≡ 1)
      × (count reader 2 writing.at ≡ 0)
      × (rw_counter writing.word ≡ 15))
    ⊎ ((count writer 2 writing.at ≡ 0)
        × (count reader 2 writing.at ≤ 14)
        × (rw_counter writing.word ≡ count reader 2 writing.at))
counter_lem_example = counter_lem writing-Reach

-- The index 18 is stored as 2.
cmpxchg_index_lem_example :
    (new : ℕ) × (cmpxchg_index 0 18 3 ≡ some (new, rw_index 3))
    × (new < 256)
    × (rw_counter new ≡ rw_counter 3)
    × (rw_index new ≡ (if rw_index 3 == 0 then 18 % 16 else rw_index 3))
cmpxchg_index_lem_example = cmpxchg_index_lem 0 18 3 (omega arith)

abbrev stay : Attempt → Attempt
stay a = a

abbrev indexed : LockOwner
indexed = record owner { flags = 2 ^ 30 + 5 * 1024 + 7 }

set_next_lem_example :
    (get_next (set_next indexed 1000) ≡ 1000)
    × (get_index (set_next indexed 1000) ≡ get_index indexed)
    × (has_flag lock_owner_wt (set_next indexed 1000) ≡ has_flag lock_owner_wt indexed)
    × (has_flag lock_owner_rd (set_next indexed 1000) ≡ has_flag lock_owner_rd indexed)
    × (has_flag lock_owner_wr (set_next indexed 1000) ≡ has_flag lock_owner_wr indexed)
set_next_lem_example = set_next_lem indexed 1000 (omega arith)

abbrev registry : LockManager
registry = record { lo = none; owners = []; exclusive_lo = none }

abbrev realloc : Option ℕ → ℕ → Option ℕ × ℕ
realloc base size = (some 1, 0)

registry-IsValid : IsValid registry
registry-IsValid = omega arith

registered :
    failed (register_owner free_lock realloc false 0 registry owner (no_error 0)).run ≡ false
unfolding register_owner store_owner find_lo found_or_grow lfind_null grow_lo_array tabresize
    rndpow2 os_rwlock_wrlock os_rwlock_unlock failed is_set
registered = refl

few_owners : nlos (register_owner free_lock realloc false 0 registry owner (no_error 0)).lm ≤ 1024
unfolding register_owner store_owner find_lo found_or_grow lfind_null grow_lo_array tabresize
    rndpow2 os_rwlock_wrlock os_rwlock_unlock failed is_set
few_owners = omega arith

register_owner_lem_example :
    let reg = register_owner free_lock realloc false 0 registry owner (no_error 0) in
    (0 < get_index reg.owner)
    × (get_index reg.owner < nlos reg.lm)
    × (holder registry.owners (get_index reg.owner) ≡ none)
    × (holder reg.lm.owners 2
        ≡ (if 2 == get_index reg.owner then some 9 else holder registry.owners 2))
    × IsValid reg.lm
    × (reg.lm.exclusive_lo ≡ none)
register_owner_lem_example =
    register_owner_lem free_lock realloc false 0 registry owner (no_error 0) 2 registry-IsValid
      registered few_owners
