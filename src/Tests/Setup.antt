-- ===== src/Tests/Setup.antt =====
-- The set-up and the release of a transaction.
use picotm.Prelude.{
  ℕ, ◌≡◌, ◌<◌, ◌≤◌, refl, arith, Option, none, some, [], ◌∷◌, false, if◌then◌else◌, ◌==◌,
}
use picotm.Error.{is_set}
use picotm.Module.{failed}
use picotm.Os.{report, os_rwlock_wrlock, os_rwlock_unlock}
use picotm.Log.{log_events}
use picotm.LockOwner.{get_index}
use picotm.LockManager.{
  LockManager, nlos, register_owner, store_owner, find_lo, found_or_grow, lfind_null, grow_lo_array,
}
use picotm.LockManager.Registry.{IsValid, holder}
use picotm.Tx.{tx_is_irrevocable}
use picotm.Tx.Setup.{PthreadOwner, lock_owner_init, tx_init, tx_release, tx_release-tx_init}
use picotm.Table.{tabresize, rndpow2}
use picotm.Tests.Data.{no_error, free_lock, adders}

abbrev working : PthreadOwner ℕ
working = record {
  mutex_init = λ s. (0, s);
  cond_init = λ s. (0, s);
  mutex_destroy = λ s. s;
  cond_destroy = λ s. s;
}

abbrev one_owner : LockManager
one_owner = record { lo = some 1; owners = none ∷ some 5 ∷ some 4 ∷ []; exclusive_lo = none }

abbrev same_place : Option ℕ → ℕ → Option ℕ × ℕ
same_place base size = (some 1, 0)

one_owner-IsValid : IsValid one_owner
one_owner-IsValid = omega arith

set_up :
    failed (tx_init working free_lock same_place false 0 adders one_owner (no_error 0)).run ≡ false
unfolding tx_init lock_owner_init report register_owner store_owner find_lo found_or_grow lfind_null
    grow_lo_array tabresize rndpow2 os_rwlock_wrlock os_rwlock_unlock failed is_set
set_up = refl

few : nlos (tx_init working free_lock same_place false 0 adders one_owner (no_error 0)).tx.lm ≤ 1024
unfolding tx_init lock_owner_init report register_owner store_owner find_lo found_or_grow lfind_null
    grow_lo_array tabresize rndpow2 os_rwlock_wrlock os_rwlock_unlock failed is_set
few = omega arith

tx_release-tx_init_example :
    let tx = (tx_init working free_lock same_place false 0 adders one_owner (no_error 0)).tx in
    (tx.modules ≡ [])
    × (log_events tx.log ≡ [])
    × (tx_is_irrevocable tx ≡ false)
    × (0 < get_index tx.lo)
    × (holder one_owner.owners (get_index tx.lo) ≡ none)
    × (holder tx.lm.owners 2 ≡ (if 2 == get_index tx.lo then some 9 else some 4))
    × (holder (tx_release working tx 0).0.owners 2 ≡ some 4)
tx_release-tx_init_example =
    tx_release-tx_init working free_lock same_place false 0 adders one_owner (no_error 0) 2 0
      one_owner-IsValid set_up few
