-- ===== src/LockManager/WakeUp.antt =====
-- src/picotm_lock_manager.c: picotm_lock_manager_wake_up() as a whole.
use picotm.Prelude.{
  ℕ, ◌≡◌, inl, inr, refl, sym, ◌∙◌, ap, Bool, true, false, not, ◌&&◌, ◌||◌, Option, none, some,
  List, [], ◌∷◌, ◌++◌, ◌==◌, if◌then◌else◌, ◌>>=◌, Bool-cases, eq→==,
}
use picotm.Error.{Error, is_set}
use picotm.LockOwner.{LockOwner, clear_flag, has_flag, lock_owner_wt, lock_owner_rd}
use picotm.LockManager.Wake.{
  Waking, unlock_owner, unlock_if, is_owner, pick_waiter, clear_waiting, wake_owner, wake_readers,
  wake_picked, unlock_registry, wake_choice, wake_listed, lock_manager_wake_up, pick_from, choose,
  next_locked,
}
use picotm.LockManager.Picked.{has_owner, AllDistinct, last_waiting, base, heads, pick_waiter_lem}
use picotm.LockManager.Woken.{other_readers, readers_of-clear_waiting, wake_readers_lem}

address-clear_waiting :
    (picked x : LockOwner)
    → (if is_owner picked x then clear_flag lock_owner_wt x else x).address ≡ x.address
unfolding clear_flag
address-clear_waiting picked x = elim (Bool-cases (is_owner picked x)) [
  | inl h ↦ rw h refl
  | inr h ↦ rw h refl
]

has_owner-clear_waiting :
    (picked x : LockOwner) (xs : List LockOwner)
    → has_owner x (clear_waiting picked xs) ≡ has_owner x xs
unfolding clear_waiting
has_owner-clear_waiting picked x [] = refl
has_owner-clear_waiting picked x (y ∷ xs) =
    ap (λ a. (x.address == a) || has_owner x (clear_waiting picked xs))
      (address-clear_waiting picked y)
    ∙ ap (λ b. is_owner x y || b) (has_owner-clear_waiting picked x xs)

has_owner-address :
    (x y : LockOwner) (xs : List LockOwner)
    → x.address ≡ y.address
    → has_owner x xs ≡ has_owner y xs
has_owner-address x y [] h = refl
has_owner-address x y (z ∷ xs) h = rw (h, has_owner-address x y xs h) refl

clear_waiting-AllDistinct :
    (picked : LockOwner) (xs : List LockOwner)
    → AllDistinct xs
    → AllDistinct (clear_waiting picked xs)
unfolding clear_waiting
clear_waiting-AllDistinct picked [] d = tt
clear_waiting-AllDistinct picked (x ∷ xs) (out, d) = (
  has_owner-address (if is_owner picked x then clear_flag lock_owner_wt x else x) x
        (clear_waiting picked xs) (address-clear_waiting picked x)
      ∙ has_owner-clear_waiting picked x xs
      ∙ out,
  clear_waiting-AllDistinct picked xs d,
)

heads-clear_waiting :
    (picked : LockOwner) (xs : List LockOwner) → heads (clear_waiting picked xs) [] ≡ heads xs []
unfolding clear_waiting
heads-clear_waiting picked [] = refl
heads-clear_waiting picked (x ∷ xs) = ap (λ a. a ∷ []) (address-clear_waiting picked x)

-- Who is woken up, in this order: the waiting owner that has been in the list for the longest time, which
-- is the last one, and if it is a reader and readers may be concurrent, all other waiting readers.
abbrev pub woken_of : Bool → List LockOwner → Option LockOwner → List ℕ
woken_of readers xs none = []
woken_of readers xs (some p) =
    p.address ∷ (if readers && has_flag lock_owner_rd p then other_readers p xs else [])

module _ (lock wake : ℕ → Error → Error) (locks : (a : ℕ) (e : Error) → lock a e ≡ e)
    (wakes : (a : ℕ) (e : Error) → wake a e ≡ e) where
  abbrev Finished : Bool → List LockOwner → Option LockOwner → Error → Option Waking → Type 0
  Finished readers xs picked e o =
      o
      ≡ some (record {
        held = [];
        registry_locked = false;
        woken = woken_of readers xs picked;
        error = e;
      })

  unlock_base :
      (first p : LockOwner) (st : Waking)
      → unlock_if (not (is_owner p first)) p (record st { held = base first (some p) })
        ≡ some (record st { held = first.address ∷ [] })
  unfolding unlock_if unlock_owner
  unlock_base first p st = elim (Bool-cases (is_owner p first)) [
    | inl h ↦ rw h refl
    | inr h ↦ rw (h, eq→== p.address p.address refl) refl
  ]

  woken_readers :
      (first : LockOwner) (rest : List LockOwner) (p : LockOwner) (st : Waking)
      → is_set st.error ≡ false
      → AllDistinct (first ∷ rest)
      → wake_readers lock wake none
          (clear_waiting p (first ∷ rest))
          (record st { held = first.address ∷ [] })
        ≡ some (
            unlock_registry
              (record st { held = []; woken = st.woken ++ other_readers p (first ∷ rest) }))
  woken_readers first rest p st fine d =
      let chain = clear_waiting p (first ∷ rest) in
      ap (λ hs. wake_readers lock wake none chain (record st { held = hs }))
        (sym (heads-clear_waiting p (first ∷ rest)))
      ∙ wake_readers_lem lock wake locks wakes none chain st fine
          (clear_waiting-AllDistinct p (first ∷ rest) d)
      ∙ ap (λ ws. some (unlock_registry (record st { held = []; woken = st.woken ++ ws })))
          (readers_of-clear_waiting p (first ∷ rest))

  unlock_first :
      (first : LockOwner) (st : Waking)
      → (unlock_owner first (record st { held = first.address ∷ [] }) >>= λ u.
          some (unlock_registry u))
        ≡ some (unlock_registry (record st { held = [] }))
  unfolding unlock_owner
  unlock_first first st = rw (eq→== first.address first.address refl) refl

  wake_picked_lem :
      (readers : Bool) (first : LockOwner) (rest : List LockOwner) (p : LockOwner) (e : Error)
      → is_set e ≡ false
      → AllDistinct (first ∷ rest)
      → Finished readers (first ∷ rest) (some p) e (
          wake_picked lock wake readers first rest p
            (record { held = base first (some p); registry_locked = true; woken = []; error = e }))
  unfolding wake_picked wake_owner
  wake_picked_lem readers first rest p e fine d =
      let st : Waking = record {
        held = first.address ∷ [];
        registry_locked = true;
        woken = p.address ∷ [];
        error = e;
      } in
      elim (Bool-cases (readers && has_flag lock_owner_rd p)) [
        | inl all ↦
            rw (wakes p.address e, fine, unlock_base first p st, all)
              (woken_readers first rest p st fine d)
        | inr alone ↦
            rw (wakes p.address e, fine, unlock_base first p st, alone) (unlock_first first st)
      ]

  wake_choice_lem :
      (readers : Bool) (first : LockOwner) (rest : List LockOwner) (picked : Option LockOwner)
      (e : Error)
      → is_set e ≡ false
      → AllDistinct (first ∷ rest)
      → Finished readers (first ∷ rest) picked e (
          wake_choice lock wake readers first rest (
            picked,
            record { held = base first picked; registry_locked = true; woken = []; error = e },
          ))
  unfolding wake_choice
  wake_choice_lem readers first rest none e fine d =
      rw fine
        (unlock_first first (record { held = []; registry_locked = true; woken = []; error = e }))
  wake_choice_lem readers first rest (some p) e fine d =
      rw fine (wake_picked_lem readers first rest p e fine d)

-- To wake up the waiters of a lock always comes back with no mutex and not the registry locked, and without
-- an error. It wakes up the owner that waits for the longest time, and if that is a reader and readers may
-- be concurrent, all other waiting readers in the order of the list; no owner twice, and none if none
-- waits. The hypotheses: no lock and no wake-up fails, there is no error at the start, and the owners of
-- the list are distinct.
pub lock_manager_wake_up_lem :
    (lock wake : ℕ → Error → Error) (rdlock : Error → Error)
    (get_first_waiter : Error → List LockOwner × Error) (readers : Bool) (first : LockOwner)
    (rest : List LockOwner) (e : Error)
    → ((a : ℕ) (x : Error) → lock a x ≡ x)
    → ((a : ℕ) (x : Error) → wake a x ≡ x)
    → is_set e ≡ false
    → rdlock e ≡ e
    → get_first_waiter e ≡ (first ∷ rest, e)
    → AllDistinct (first ∷ rest)
    → lock_manager_wake_up lock wake rdlock get_first_waiter readers e
      ≡ some (record {
        held = [];
        registry_locked = false;
        woken = woken_of readers (first ∷ rest) (last_waiting none (first ∷ rest));
        error = e;
      })
unfolding lock_manager_wake_up wake_listed
lock_manager_wake_up_lem lock wake rdlock get_first_waiter readers first rest e locks wakes fine got
      listed d =
    let st : Waking = record { held = []; registry_locked = true; woken = []; error = e } in
    rw (got, fine, listed, fine, pick_waiter_lem lock locks first rest st fine d)
      (wake_choice_lem lock wake locks wakes readers first rest (last_waiting none (first ∷ rest)) e
        fine d)

-- If the first waiter is the only one that waits and its wake-up reports an error, the function unlocks its
-- mutex twice, which is undefined.
pub lock_manager_wake_up-unlocked_twice :
    (lock wake : ℕ → Error → Error) (rdlock : Error → Error)
    (get_first_waiter : Error → List LockOwner × Error) (readers : Bool) (first : LockOwner)
    (e : Error)
    → is_set e ≡ false
    → rdlock e ≡ e
    → get_first_waiter e ≡ (first ∷ [], e)
    → has_flag lock_owner_wt first ≡ true
    → is_set (wake first.address e) ≡ true
    → lock_manager_wake_up lock wake rdlock get_first_waiter readers e ≡ none
unfolding lock_manager_wake_up wake_listed wake_choice wake_picked wake_owner unlock_owner
    pick_waiter pick_from choose next_locked unlock_if
lock_manager_wake_up-unlocked_twice lock wake rdlock get_first_waiter readers first e fine got
      listed waits broken =
    rw
      (
        got,
        fine,
        listed,
        fine,
        waits,
        fine,
        eq→== first.address first.address refl,
        fine,
        broken,
        eq→== first.address first.address refl,
      )
      refl
