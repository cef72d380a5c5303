-- ===== src/LockOwner.antt =====
-- src/picotm_lock_owner.h and src/picotm_lock_owner.c: the owner of transactional locks.
--
-- `flags` is an unsigned long of 64 bits, with the owner's index in the bits 0 to 9, the index of the
-- next waiter in the bits 10 to 19, and three single bits. Clearing and setting a field of bits is
-- written as arithmetic on the part of the number that the field is.
pub mod Fields
use picotm.Prelude.{ℕ, ◌+◌, ◌-◌, ◌*◌, ◌/◌, ◌%◌, ◌^◌, Option, none, some, Bool, ◌==◌, if◌then◌else◌}
use picotm.Module.{Run}
use picotm.Os.{Clock, os_get_timespec}
use picotm.Timespec.{Timespec}

pub record LockOwner : Type 0 where
  pub address : ℕ
  pub flags : ℕ
  pub next : Option ℕ
  pub timestamp : Timespec

-- The numbers of the bits.
abbrev pub lock_owner_wt : ℕ
lock_owner_wt = 29

abbrev pub lock_owner_rd : ℕ
lock_owner_rd = 30

abbrev pub lock_owner_wr : ℕ
lock_owner_wr = 31

-- self->flags & bit
abbrev pub has_flag : ℕ → LockOwner → Bool
has_flag bit self = self.flags / 2 ^ bit % 2 == 1

-- self->flags |= bit
unfoldable pub set_flag : ℕ → LockOwner → LockOwner
set_flag bit self = record self {
  flags = if has_flag bit self then self.flags else self.flags + 2 ^ bit;
}

-- self->flags &= ~bit
unfoldable pub clear_flag : ℕ → LockOwner → LockOwner
clear_flag bit self = record self {
  flags = if has_flag bit self then self.flags - 2 ^ bit else self.flags;
}

-- (flags & ~0x3ff) | (index & 0x3ff)
unfoldable pub set_index : LockOwner → ℕ → LockOwner
set_index self index = record self { flags = self.flags / 1024 * 1024 + index % 1024 }

unfoldable pub get_index : LockOwner → ℕ
get_index self = self.flags % 1024

-- (flags & ~0xffc00) | ((next & 0x3ff) << 10)
unfoldable pub set_next : LockOwner → ℕ → LockOwner
set_next self next = record self {
  flags = self.flags - self.flags / 1024 % 1024 * 1024 + next % 1024 * 1024;
}

unfoldable pub get_next : LockOwner → ℕ
get_next self = self.flags / 1024 % 1024

stamp : LockOwner → Option Timespec → LockOwner
stamp self none = self
stamp self (some t) = record self { timestamp = t }

unfoldable pub reset_timestamp : {S : Type 0} → Clock S → LockOwner → Run S → LockOwner × Run S
unfolding stamp
reset_timestamp clock self r = let (t, r') = os_get_timespec clock r in (stamp self t, r')
