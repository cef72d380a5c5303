-- ===== src/LockManager.antt =====
-- src/picotm_lock_manager.h and src/picotm_lock_manager.c: the registry of lock owners, and the one
-- owner that may run irrevocably.
--
-- The array `lo` is the list `owners` of pointers, `none` for null; `nlos` is its length.
pub mod Registry
pub mod Register
pub mod Wake
pub mod Picked
pub mod Woken
pub mod WakeUp
use picotm.Prelude.{
  ℕ, zero, suc, ◌+◌, ◌-◌, Bool, true, false, Option, none, some, List, [], ◌∷◌, ◌++◌, length, take,
  drop, set, ◌==◌, if◌then◌else◌,
}
use picotm.Error.{Error, is_set}
use picotm.Module.{Run, failed}
use picotm.Table.{tabresize}
use picotm.Os.{PthreadRwlock, os_rwlock_rdlock, os_rwlock_wrlock, os_rwlock_unlock}
use picotm.LockOwner.{LockOwner, set_index, get_index}

pub record LockManager : Type 0 where
  pub lo : Option ℕ
  pub owners : List (Option ℕ)
  pub exclusive_lo : Option ℕ

abbrev pub nlos : LockManager → ℕ
nlos self = length self.owners

-- !n, as a number
abbrev pub is_zero : ℕ → ℕ
is_zero n = if n == 0 then 1 else 0

-- !!n
abbrev pub is_nonzero : ℕ → ℕ
is_nonzero n = if n == 0 then 0 else 1

abbrev pub nulls : ℕ → List (Option ℕ)
nulls zero = []
nulls (suc n) = none ∷ nulls n

-- lfind() with ptrcmp() and the key null: the offset of the first null pointer.
unfoldable pub lfind_null : List (Option ℕ) → Option ℕ
lfind_null [] = none
lfind_null (none ∷ rest) = some 0
lfind_null (some a ∷ rest) = elim (lfind_null rest) [ none ↦ none | some i ↦ some (suc i) ]

-- sizeof(self->lo)
abbrev sizeof_lo : ℕ
sizeof_lo = 8

pub record Grown : Type 0 where
  pub s_lowmem : Bool
  pub lm : LockManager
  pub error : Error

-- `pos` is the position of a free element of the array.
pub record Found : Type 0 where
  pub grown : Grown
  pub open grown use *
  pub pos : ℕ

module _ (realloc : Option ℕ → ℕ → Option ℕ × ℕ) where
  unfoldable pub grow_lo_array : Bool → ℕ → LockManager → Error → Grown
  grow_lo_array s_lowmem errno self e =
      let new_nlos = is_zero (nlos self) + nlos self + 1 in
      let t = tabresize realloc s_lowmem errno self.lo (nlos self) new_nlos sizeof_lo e in
      if is_set t.error
      then record { s_lowmem = t.s_lowmem; lm = self; error = t.error }
      else (record {
        s_lowmem = t.s_lowmem;
        lm = record self { lo = t.mem; owners = self.owners ++ nulls (new_nlos - nlos self) };
        error = t.error;
      })

  -- Where lfind() was given the elements from `start` on.
  unfoldable pub found_or_grow : Bool → ℕ → LockManager → Error → ℕ → Option ℕ → Found
  found_or_grow s_lowmem errno self e start (some i) = record {
    grown = record { s_lowmem = s_lowmem; lm = self; error = e };
    pos = start + i;
  }
  found_or_grow s_lowmem errno self e start none = record {
    grown = grow_lo_array s_lowmem errno self e;
    pos = is_zero (nlos self) + nlos self;
  }

  unfoldable pub find_lo : Bool → ℕ → LockManager → Error → Found
  unfolding found_or_grow
  find_lo s_lowmem errno self e =
      let n = nlos self - is_nonzero (nlos self) in
      let start = is_nonzero n in
      found_or_grow s_lowmem errno self e start (lfind_null (take n (drop start self.owners)))

-- The outcome of a registration.
pub record Registered (S : Type 0) : Type 0 where
  pub s_lowmem : Bool
  pub lm : LockManager
  pub owner : LockOwner
  pub run : Run S

module _ {S : Type 0} (lo_rwlock : PthreadRwlock S) where
  unfoldable pub store_owner : LockOwner → Run S → Found → Registered S
  store_owner owner r f =
      if is_set f.error
      then (record {
        s_lowmem = f.s_lowmem;
        lm = f.lm;
        owner = owner;
        run = os_rwlock_unlock lo_rwlock (record r { error = f.error });
      })
      else (record {
        s_lowmem = f.s_lowmem;
        lm = record (f.lm) { owners = set f.lm.owners f.pos (some owner.address) };
        owner = set_index owner f.pos;
        run = os_rwlock_unlock lo_rwlock (record r { error = f.error });
      })

  unfoldable pub register_owner :
      (Option ℕ → ℕ → Option ℕ × ℕ) → Bool → ℕ → LockManager → LockOwner → Run S → Registered S
  unfolding store_owner
  register_owner realloc s_lowmem errno self owner r =
      let r1 = os_rwlock_wrlock lo_rwlock r in
      if failed r1
      then record { s_lowmem = s_lowmem; lm = self; owner = owner; run = r1 }
      else store_owner owner r1 (find_lo realloc s_lowmem errno self r1.error)

-- The array without the owner. The writer lock around it is taken and released (and retried until it
-- is taken).
unfoldable pub unregister_owner : LockManager → LockOwner → LockManager
unregister_owner self owner = record self { owners = set self.owners (get_index owner) none }

-- The tests of two pointers.
abbrev pub same_owner : Option ℕ → ℕ → Bool
same_owner none a = false
same_owner (some b) a = b == a

module _ {S : Type 0} (exclusive_lo_lock : PthreadRwlock S) where
  unfoldable pub make_irrevocable : LockManager → LockOwner → Run S → LockManager × Run S
  make_irrevocable self exclusive_lo r =
      let r1 = os_rwlock_wrlock exclusive_lo_lock r in
      if failed r1
      then (self, r1)
      else (record self { exclusive_lo = some exclusive_lo.address }, r1)

  unfoldable pub wait_irrevocable : LockManager → Run S → LockManager × Run S
  wait_irrevocable self r = (self, os_rwlock_rdlock exclusive_lo_lock r)

  unfoldable pub release_irrevocability : LockManager → LockOwner → Run S → LockManager × Run S
  release_irrevocability self owner r = (
    if same_owner self.exclusive_lo owner.address
        then record self { exclusive_lo = none }
        else self,
    os_rwlock_unlock exclusive_lo_lock r,
  )
