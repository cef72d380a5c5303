-- ===== src/LockManager/Woken.antt =====
-- src/picotm_lock_manager.c: the wake-up of all waiting readers.
use picotm.Prelude.{
  ℕ, ◌≡◌, inl, inr, refl, sym, ◌∙◌, ap, arith, false, not, ◌&&◌, Option, some, List, [], ◌∷◌, ◌++◌,
  if◌then◌else◌, Bool-cases, append-nil, append_assoc,
}
use picotm.Error.{Error, is_set}
use picotm.LockOwner.{LockOwner, clear_flag, has_flag, lock_owner_wt}
use picotm.LockManager.Wake.{
  Waking, is_owner, clear_waiting, is_waiting_reader, wake_owner, wake_readers, unlock_registry,
}
use picotm.LockManager.Picked.{AllDistinct, heads, unlock_behind, next_locked_lem}

-- The addresses of the waiting readers, and of those but one.
abbrev pub readers_of : List LockOwner → List ℕ
readers_of [] = []
readers_of (x ∷ xs) = if is_waiting_reader x then x.address ∷ readers_of xs else readers_of xs

abbrev pub other_readers : LockOwner → List LockOwner → List ℕ
other_readers picked [] = []
other_readers picked (x ∷ xs) =
    if is_waiting_reader x && not (is_owner picked x)
    then x.address ∷ other_readers picked xs
    else other_readers picked xs

has_flag-clear_flag :
    (owner : LockOwner) → has_flag lock_owner_wt (clear_flag lock_owner_wt owner) ≡ false
unfolding clear_flag
has_flag-clear_flag owner = ground arith

pub readers_of-clear_waiting :
    (picked : LockOwner) (xs : List LockOwner)
    → readers_of (clear_waiting picked xs) ≡ other_readers picked xs
unfolding clear_waiting
readers_of-clear_waiting picked [] = refl
readers_of-clear_waiting picked (x ∷ xs) = elim (Bool-cases (is_owner picked x)) [
  | inl chosen ↦
      rw (chosen, has_flag-clear_flag x) (ground (arith, readers_of-clear_waiting picked xs))
  | inr other ↦ rw other (ground (arith, readers_of-clear_waiting picked xs))
]

module _ (lock wake : ℕ → Error → Error) (locks : (a : ℕ) (e : Error) → lock a e ≡ e)
    (wakes : (a : ℕ) (e : Error) → wake a e ≡ e) where
  pub wake_readers_lem :
      (prec : Option LockOwner) (xs : List LockOwner) (st : Waking)
      → is_set st.error ≡ false
      → AllDistinct xs
      → wake_readers lock wake prec xs (record st { held = heads xs [] })
        ≡ some (unlock_registry (record st { held = []; woken = st.woken ++ readers_of xs }))
  unfolding wake_readers wake_owner
  wake_readers_lem prec [] st fine d =
      ap (λ ws. some (unlock_registry (record st { held = []; woken = ws })))
        (sym (append-nil st.woken))
  wake_readers_lem prec (w ∷ rest) st fine (out, d) = elim (Bool-cases (is_waiting_reader w)) [
    | inl reads ↦
        let tried : Waking = record st {
          held = w.address ∷ [];
          woken = st.woken ++ w.address ∷ [];
        } in
        rw
          (
            reads,
            wakes w.address st.error,
            fine,
            next_locked_lem lock locks rest tried fine,
            fine,
            unlock_behind w rest tried [] out,
          )
          (wake_readers_lem (some w) rest tried fine d
            ∙ ap (λ ws. some (unlock_registry (record st { held = []; woken = ws })))
                (append_assoc st.woken (w.address ∷ []) (readers_of rest)))
    | inr idle ↦
        let same_st : Waking = record st { held = w.address ∷ [] } in
        rw
          (
            idle,
            next_locked_lem lock locks rest same_st fine,
            fine,
            unlock_behind w rest same_st [] out,
          )
          (wake_readers_lem (some w) rest st fine d)
  ]
