-- ===== src/LockManager/Register.antt =====
-- src/picotm_lock_manager.c: what a registration does to the registry and to the owner.
use picotm.Prelude.{
  ℕ, ◌≤◌, ◌<◌, ◌≡◌, sym, ap, ◌∙◌, arith, Bool, true, false, inl, inr, Option, none, some, set,
  length-set, Bool-cases, if◌then◌else◌, ◌==◌,
}
use picotm.Error.{is_set}
use picotm.Module.{Run, failed}
use picotm.Os.{PthreadRwlock, os_rwlock_wrlock, os_rwlock_unlock}
use picotm.LockOwner.{LockOwner, get_index}
use picotm.LockOwner.Fields.{set_index_lem}
use picotm.LockManager.{
  LockManager, nlos, Found, find_lo, store_owner, register_owner, unregister_owner,
}
use picotm.LockManager.Registry.{
  IsValid, Free, find_lo-Free, get_elem?-lt, holder, holder-set, holder-get_elem?,
}

-- The owner has a positive index of its own, which was free before, and nothing else has changed.
pub record Holds (self : LockManager) (a : ℕ) (self' : LockManager) (i : ℕ) : Type 0 where
  pub positive : 0 < i
  pub inside : i < nlos self'
  pub was_free : holder self.owners i ≡ none
  pub holders : (j : ℕ) → holder self'.owners j ≡ (if j == i then some a else holder self.owners j)
  pub longer : nlos self ≤ nlos self'
  pub exclusive_kept : self'.exclusive_lo ≡ self.exclusive_lo

module _ {self : LockManager} {f : Found} (free : Free self f) (a : ℕ) where
  inside_found : f.pos < nlos f.lm
  inside_found = get_elem?-lt f.lm.owners f.pos none free.slot

  store-Holds : Holds self a (record (f.lm) { owners = set f.lm.owners f.pos (some a) }) f.pos
  store-Holds = record {
    positive = free.behind;
    inside = rw (length-set f.lm.owners f.pos (some a)) inside_found;
    was_free = sym (free.kept f.pos) ∙ holder-get_elem? f.lm.owners f.pos none free.slot;
    holders = λ j.
        holder-set f.lm.owners f.pos j (some a) inside_found
        ∙ ap (λ h. if j == f.pos then some a else h) (free.kept j);
    longer = rw (length-set f.lm.owners f.pos (some a)) free.longer;
    exclusive_kept = free.exclusive;
  }

module _ {S : Type 0} (lo_rwlock : PthreadRwlock S) (realloc : Option ℕ → ℕ → Option ℕ × ℕ)
    (s_lowmem : Bool) (errno : ℕ) (self : LockManager) (owner : LockOwner) (r : Run S) where
  store_owner-Holds :
      (q : Run S) (f : Found)
      → (is_set f.error ≡ false → Free self f)
      → failed (store_owner lo_rwlock owner q f).run ≡ false
      → nlos (store_owner lo_rwlock owner q f).lm ≤ 1024
      → Holds self owner.address
          (store_owner lo_rwlock owner q f).lm
          (get_index (store_owner lo_rwlock owner q f).owner)
  unfolding store_owner failed os_rwlock_unlock
  store_owner-Holds q f free ok small = elim (Bool-cases (is_set f.error)) [
    | inl bad ↦ let no : true ≡ false = sym bad ∙ (rw bad at ok) in cc
    | inr good ↦
        let small' = rw good at small in
        let fits : f.pos < 1024 = omega (
          arith,
          get_elem?-lt f.lm.owners f.pos none (free good).slot,
          length-set f.lm.owners f.pos (some owner.address),
        ) in
        rw (good, (set_index_lem owner f.pos fits).0) (store-Holds (free good) owner.address)
  ]

  register_owner-Holds :
      IsValid self
      → failed (register_owner lo_rwlock realloc s_lowmem errno self owner r).run ≡ false
      → nlos (register_owner lo_rwlock realloc s_lowmem errno self owner r).lm ≤ 1024
      → Holds self owner.address
          (register_owner lo_rwlock realloc s_lowmem errno self owner r).lm
          (get_index (register_owner lo_rwlock realloc s_lowmem errno self owner r).owner)
  unfolding register_owner
  register_owner-Holds v ok small = elim (Bool-cases (failed locked)) [
    | inl bad ↦ let no : true ≡ false = sym bad ∙ (rw bad at ok) in cc
    | inr good ↦ rw good (
        store_owner-Holds locked (find_lo realloc s_lowmem errno self locked.error)
          (find_lo-Free realloc s_lowmem errno self.lo self.exclusive_lo locked.error self.owners
            v.magic)
          (rw good at ok) (rw good at small))
  ]
    where
      locked : Run S
      locked = os_rwlock_wrlock lo_rwlock r

  -- A registration without an error, the first one into the empty registry included, gives the owner a
  -- positive index within the array, at which no owner stood. The owner stands there afterwards, and at every
  -- other index `j` stands the one that stood there, or none. The exclusive owner stays, and the array is
  -- as valid as before. The hypotheses: the array does not have exactly one element before, and at most 1024,
  -- as many as the index has values, afterwards.
  pub register_owner_lem :
      (j : ℕ)
      → IsValid self
      → failed (register_owner lo_rwlock realloc s_lowmem errno self owner r).run ≡ false
      → nlos (register_owner lo_rwlock realloc s_lowmem errno self owner r).lm ≤ 1024
      → let reg = register_owner lo_rwlock realloc s_lowmem errno self owner r in
        (0 < get_index reg.owner)
        × (get_index reg.owner < nlos reg.lm)
        × (holder self.owners (get_index reg.owner) ≡ none)
        × (holder reg.lm.owners j
            ≡ (if j == get_index reg.owner then some owner.address else holder self.owners j))
        × IsValid reg.lm
        × (reg.lm.exclusive_lo ≡ self.exclusive_lo)
  register_owner_lem j v ok small =
      let holds = register_owner-Holds v ok small in
      (
        holds.positive,
        holds.inside,
        holds.was_free,
        holds.holders j,
        record { magic = λ one. absurd (omega (arith, one, holds.positive, holds.inside)) },
        holds.exclusive_kept,
      )

-- To give the index of an owner back leaves nobody there, and at every other index `j` the one who stood
-- there. Here the index lies in the array.
pub unregister_owner_lem :
    (self : LockManager) (owner : LockOwner) (j : ℕ)
    → get_index owner < nlos self
    → holder (unregister_owner self owner).owners j
      ≡ (if j == get_index owner then none else holder self.owners j)
unfolding unregister_owner
unregister_owner_lem self owner j h = holder-set self.owners (get_index owner) j none h
