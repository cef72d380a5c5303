-- ===== src/LockManager/Wake.antt =====
-- src/picotm_lock_manager.c: pick_waiter() and picotm_lock_manager_wake_up(), which wake up the owners that
-- wait for a lock.
--
-- The list of a lock's waiters is the list of the owners from the first one on, along their pointers
-- `next`. `held` has the owners whose mutexes the function has locked, the latest first; to unlock another
-- mutex is undefined, and the answer is `none`. The arguments `lock` and `wake` are the error after
-- picotm_lock_owner_lock() and picotm_lock_owner_wake_up() of an owner, and `rdlock` the error after
-- the lock of the registry. get_first_waiter() is a parameter, which answers the list and the error, with
-- the first owner locked.
use picotm.Prelude.{
  ℕ, Bool, true, false, not, ◌&&◌, Option, none, some, List, [], ◌∷◌, ◌++◌, ◌==◌, if◌then◌else◌,
  ◌>>=◌,
}
use picotm.Error.{Error, is_set}
use picotm.LockOwner.{LockOwner, clear_flag, has_flag, lock_owner_wt, lock_owner_rd}

pub record Waking : Type 0 where
  pub held : List ℕ
  pub registry_locked : Bool
  pub woken : List ℕ
  pub error : Error

abbrev pub fails : Waking → Bool
fails st = is_set st.error

-- The list without the first occurrence of a number, `none` when it has none.
abbrev pub release_mutex : ℕ → List ℕ → Option (List ℕ)
release_mutex a [] = none
release_mutex a (x ∷ xs) =
    let rest = release_mutex a xs in if a == x then some xs else (rest >>= λ ys. some (x ∷ ys))

unfoldable pub unlock_owner : LockOwner → Waking → Option Waking
unlock_owner owner st = release_mutex owner.address st.held >>= λ hs. some (record st { held = hs })

unfoldable pub unlock_if : Bool → LockOwner → Waking → Option Waking
unfolding unlock_owner
unlock_if true owner st = unlock_owner owner st
unlock_if false owner st = some st

abbrev pub is_owner : LockOwner → LockOwner → Bool
is_owner a b = a.address == b.address

abbrev pub is_other : Option LockOwner → LockOwner → Bool
is_other none owner = false
is_other (some picked) owner = not (is_owner picked owner)

abbrev pub is_same : Option LockOwner → LockOwner → Bool
is_same none owner = false
is_same (some picked) owner = is_owner owner picked

-- Unlocks the picked owner, if there is one for which the test holds.
unfoldable pub unlock_picked : Bool → Option LockOwner → Waking → Option Waking
unfolding unlock_if
unlock_picked test none st = some st
unlock_picked test (some picked) st = unlock_if test picked st

-- Whether the comparison of the old choice with a new one is positive.
abbrev pub compare_longest_waiting : LockOwner → LockOwner → Bool
compare_longest_waiting old new = true

abbrev pub compare_shortest_waiting : LockOwner → LockOwner → Bool
compare_shortest_waiting old new = false

module _ (lock : ℕ → Error → Error) where
  unfoldable pub lock_owner : LockOwner → Waking → Waking
  lock_owner owner st =
      let e = lock owner.address st.error in
      record st { held = if is_set e then st.held else owner.address ∷ st.held; error = e }

  unfoldable pub next_locked : List LockOwner → Waking → Waking
  unfolding lock_owner
  next_locked [] st = st
  next_locked (owner ∷ rest) st = lock_owner owner st

  module _ (compare_waiters : LockOwner → LockOwner → Bool) (first : LockOwner) where
    -- The choice between the owner picked so far and a waiting one.
    unfoldable pub choose :
        Option LockOwner → LockOwner → Waking → Option (Option LockOwner × Waking)
    unfolding unlock_if
    choose none waiter st = some (some waiter, st)
    choose (some picked) waiter st =
        if compare_waiters picked waiter
        then (unlock_if (not (is_owner picked first)) picked st >>= λ t. some (some waiter, t))
        else some (some picked, st)

    -- Behind the loop's lock of the next owner: the error path.
    unfoldable pub give_up :
        Option LockOwner → LockOwner → Waking → Option (Option LockOwner × Waking)
    unfolding unlock_if unlock_picked
    give_up picked waiter st = unlock_if (not (is_owner waiter first)) waiter st >>= λ t.
        unlock_picked (is_other picked first && is_other picked waiter) picked t >>= λ u.
        some (none, u)

    unfoldable pub pick_from :
        Option LockOwner → List LockOwner → Waking → Option (Option LockOwner × Waking)
    unfolding unlock_if next_locked choose give_up
    pick_from picked [] st = some (picked, st)
    pick_from picked (waiter ∷ rest) st =
        (if has_flag lock_owner_wt waiter then choose picked waiter st else some (picked, st))
        >>= λ c.
            let locked = next_locked rest c.1 in
            let gone = give_up c.0 waiter locked in
            let stay = is_same c.0 waiter in
            let more = unlock_if (not stay && not (is_owner waiter first)) waiter locked >>= λ u.
            pick_from c.0 rest u in
            if fails locked then gone else more

  unfoldable pub pick_waiter :
      (LockOwner → LockOwner → Bool)
      → LockOwner
      → List LockOwner
      → Waking
      → Option (Option LockOwner × Waking)
  unfolding pick_from
  pick_waiter compare_waiters first rest st = pick_from compare_waiters first none (first ∷ rest) st

-- picotm_lock_owner_wake_up() clears the flag of a waiting owner.
unfoldable pub clear_waiting : LockOwner → List LockOwner → List LockOwner
unfolding clear_flag
clear_waiting owner [] = []
clear_waiting owner (x ∷ xs) =
    (if is_owner owner x then clear_flag lock_owner_wt x else x) ∷ clear_waiting owner xs

abbrev pub is_waiting_reader : LockOwner → Bool
is_waiting_reader owner = has_flag lock_owner_rd owner && has_flag lock_owner_wt owner

abbrev pub unlock_registry : Waking → Waking
unlock_registry st = record st { registry_locked = false }

module _ (lock wake : ℕ → Error → Error) where
  unfoldable pub wake_owner : LockOwner → Waking → Waking
  wake_owner owner st = record st {
    woken = st.woken ++ owner.address ∷ [];
    error = wake owner.address st.error;
  }

  -- The loop over all waiters, with the owner before the current one.
  unfoldable pub wake_readers : Option LockOwner → List LockOwner → Waking → Option Waking
  unfolding wake_owner unlock_owner unlock_picked next_locked
  wake_readers prec [] st = some (unlock_registry st)
  wake_readers prec (waiter ∷ rest) st =
      let tried = if is_waiting_reader waiter then wake_owner waiter st else st in
      let locked = next_locked lock rest tried in
      let more = unlock_owner waiter locked >>= λ u. wake_readers (some waiter) rest u in
      if is_waiting_reader waiter && fails tried
      then (unlock_picked true prec tried >>= λ s.
          unlock_owner waiter s >>= λ t. some (unlock_registry t))
      else if fails locked
      then (unlock_owner waiter locked >>= λ t. some (unlock_registry t))
      else more

  -- After the choice: the owner to wake up, and the list.
  unfoldable pub wake_picked :
      Bool → LockOwner → List LockOwner → LockOwner → Waking → Option Waking
  unfolding wake_owner unlock_owner unlock_if wake_readers clear_waiting
  wake_picked concurrent_readers_supported first rest picked st =
      let tried = wake_owner picked st in
      let all = concurrent_readers_supported && has_flag lock_owner_rd picked in
      if fails tried
      then (unlock_owner picked tried >>= λ t.
          unlock_owner first t >>= λ u. some (unlock_registry u))
      else (unlock_if (not (is_owner picked first)) picked tried >>= λ t.
          if all
          then wake_readers none (clear_waiting picked (first ∷ rest)) t
          else (unlock_owner first t >>= λ u. some (unlock_registry u)))

  unfoldable pub wake_choice :
      Bool → LockOwner → List LockOwner → Option LockOwner × Waking → Option Waking
  unfolding unlock_owner wake_picked
  wake_choice readers first rest (picked, st) =
      if fails st
      then (unlock_owner first st >>= λ t. some (unlock_registry t))
      else wake_chosen readers first rest picked st
    where
      wake_chosen : Bool → LockOwner → List LockOwner → Option LockOwner → Waking → Option Waking
      wake_chosen readers first rest none st =
          unlock_owner first st >>= λ t. some (unlock_registry t)
      wake_chosen readers first rest (some picked) st = wake_picked readers first rest picked st

  unfoldable pub wake_listed : Bool → List LockOwner × Error → Waking → Option Waking
  unfolding pick_waiter wake_choice
  wake_listed readers ([], e) st = some (unlock_registry (record st { error = e }))
  wake_listed readers (first ∷ rest, e) st =
      if is_set e
      then some (unlock_registry (record st { error = e }))
      else (pick_waiter lock compare_longest_waiting first rest
            (record st { error = e; held = first.address ∷ st.held })
          >>= λ c. wake_choice readers first rest c)

  unfoldable pub lock_manager_wake_up :
      (Error → Error) → (Error → List LockOwner × Error) → Bool → Error → Option Waking
  unfolding wake_listed
  lock_manager_wake_up rdlock get_first_waiter concurrent_readers_supported error =
      let e = rdlock error in
      let start : Waking = record {
        held = [];
        registry_locked = not (is_set e);
        woken = [];
        error = e;
      } in
      if is_set e
      then some start
      else wake_listed concurrent_readers_supported (get_first_waiter e) start
