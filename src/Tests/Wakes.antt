-- ===== src/Tests/Wakes.antt =====
-- src/picotm_lock_manager.c: a wake-up among four owners, of which three wait.
use picotm.Prelude.{ℕ, ◌≡◌, refl, true, false, Option, none, some, List, [], ◌∷◌, ◌+◌, ◌^◌}
use picotm.Error.{Error, error_initializer, set_errno, is_set-initializer, is_set-set_errno}
use picotm.Prelude.Int.{pos}
use picotm.LockOwner.{LockOwner}
use picotm.LockManager.Wake.{lock_manager_wake_up}
use picotm.LockManager.WakeUp.{lock_manager_wake_up_lem, lock_manager_wake_up-unlocked_twice}

abbrev owner_with : ℕ → ℕ → Option ℕ → LockOwner
owner_with address flags next = record {
  address = address;
  flags = flags;
  next = next;
  timestamp = record { tv_sec = pos 0; tv_nsec = 0 };
}

abbrev reader_1 : LockOwner
reader_1 = owner_with 1 (2 ^ 29 + 2 ^ 30) (some 2)

abbrev others : List LockOwner
others =
    owner_with 2 (2 ^ 29 + 2 ^ 31) (some 3)
    ∷ owner_with 3 (2 ^ 29 + 2 ^ 30) (some 4)
    ∷ owner_with 4 (2 ^ 30) none
    ∷ []

abbrev works : ℕ → Error → Error
works a e = e

abbrev entered : Error → Error
entered e = e

lock_manager_wake_up_lem_example :
    lock_manager_wake_up works works entered (λ e. (reader_1 ∷ others, e)) true error_initializer
    ≡ some (record {
      held = [];
      registry_locked = false;
      woken = 3 ∷ 1 ∷ [];
      error = error_initializer;
    })
lock_manager_wake_up_lem_example =
    lock_manager_wake_up_lem works works entered (λ e. (reader_1 ∷ others, e)) true reader_1 others
      error_initializer (λ a x. refl) (λ a x. refl) is_set-initializer refl refl
      (refl, (refl, (refl, (refl, tt))))

abbrev no_wake_up : ℕ → Error → Error
no_wake_up a e = set_errno e 22

lock_manager_wake_up-unlocked_twice_example :
    lock_manager_wake_up works no_wake_up entered (λ e. (reader_1 ∷ [], e)) true error_initializer
    ≡ none
lock_manager_wake_up-unlocked_twice_example =
    lock_manager_wake_up-unlocked_twice works no_wake_up entered (λ e. (reader_1 ∷ [], e)) true
      reader_1 error_initializer is_set-initializer refl refl refl
      (is_set-set_errno error_initializer 22)
