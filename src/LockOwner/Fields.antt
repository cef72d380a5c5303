-- ===== src/LockOwner/Fields.antt =====
-- src/picotm_lock_owner.c: the fields that share the word of flags do not disturb one another.
use picotm.Prelude.{ℕ, ◌<◌, ◌≡◌, arith}
use picotm.LockOwner.{
  LockOwner, has_flag, set_index, get_index, set_next, get_next, lock_owner_wt, lock_owner_rd,
  lock_owner_wr,
}

-- An index below 1024 that is stored is read back; the index of the next waiter and the three single
-- bits stay.
pub set_index_lem :
    (self : LockOwner) (index : ℕ)
    → index < 1024
    → (get_index (set_index self index) ≡ index)
      × (get_next (set_index self index) ≡ get_next self)
      × (has_flag lock_owner_wt (set_index self index) ≡ has_flag lock_owner_wt self)
      × (has_flag lock_owner_rd (set_index self index) ≡ has_flag lock_owner_rd self)
      × (has_flag lock_owner_wr (set_index self index) ≡ has_flag lock_owner_wr self)
unfolding set_index get_index get_next
set_index_lem self index h = ground arith

-- The index of the next waiter, below 1024, that is stored is read back; the owner's own index and
-- the three single bits stay.
pub set_next_lem :
    (self : LockOwner) (next : ℕ)
    → next < 1024
    → (get_next (set_next self next) ≡ next)
      × (get_index (set_next self next) ≡ get_index self)
      × (has_flag lock_owner_wt (set_next self next) ≡ has_flag lock_owner_wt self)
      × (has_flag lock_owner_rd (set_next self next) ≡ has_flag lock_owner_rd self)
      × (has_flag lock_owner_wr (set_next self next) ≡ has_flag lock_owner_wr self)
unfolding set_next get_index get_next
set_next_lem self next h = ground arith
