-- ===== src/LockManager/Picked.antt =====
-- src/picotm_lock_manager.c: which owner pick_waiter() picks, and which mutexes it leaves locked.
use picotm.Prelude.{
  ℕ, ◌≡◌, ◌⊎◌, inl, inr, refl, subst, arith, Bool, true, false, ◌||◌, Option, none, some, List, [],
  ◌∷◌, if◌then◌else◌, Bool-cases, if_true, if_false, eq→==,
}
use picotm.Error.{Error, is_set}
use picotm.LockOwner.{LockOwner, has_flag, lock_owner_wt}
use picotm.LockManager.Wake.{
  Waking, unlock_owner, unlock_if, is_owner, lock_owner, next_locked, choose, is_same, pick_from,
  pick_waiter, compare_longest_waiting,
}

abbrev pub has_owner : LockOwner → List LockOwner → Bool
has_owner owner [] = false
has_owner owner (x ∷ xs) = is_owner owner x || has_owner owner xs

abbrev pub AllDistinct : List LockOwner → Type 0
AllDistinct [] = Unit {0}
AllDistinct (x ∷ xs) = (has_owner x xs ≡ false) × AllDistinct xs

-- The last owner of the list that waits, and otherwise the one given.
abbrev pub last_waiting : Option LockOwner → List LockOwner → Option LockOwner
last_waiting picked [] = picked
last_waiting picked (x ∷ xs) = last_waiting (if has_flag lock_owner_wt x then some x else picked) xs

-- The mutexes behind that of the current owner.
abbrev pub base : LockOwner → Option LockOwner → List ℕ
base first none = first.address ∷ []
base first (some p) =
    if is_owner p first then first.address ∷ [] else p.address ∷ first.address ∷ []

-- The owner picked so far is the first one, or not among the others.
abbrev PickedBefore : LockOwner → Option LockOwner → List LockOwner → Type 0
PickedBefore first none xs = Unit {0}
PickedBefore first (some p) xs =
    (is_owner p first ≡ true) ⊎ ((is_owner p first ≡ false) × (has_owner p xs ≡ false))

-- The mutexes with that of the current owner in front.
abbrev pub heads : List LockOwner → List ℕ → List ℕ
heads [] hs = hs
heads (x ∷ xs) hs = x.address ∷ hs

or_false_both : (a b : Bool) → (a || b) ≡ false → (a ≡ false) × (b ≡ false)
or_false_both a b h = (ground arith, ground arith)

pub or_false_left : (a b : Bool) → (a || b) ≡ false → a ≡ false
or_false_left a b h = ground arith

pub is_owner-sym : (a b : LockOwner) → is_owner a b ≡ false → is_owner b a ≡ false
is_owner-sym a b h = ground arith

PickedBefore-one :
    (first : LockOwner) (picked : Option LockOwner) (w : LockOwner) (rest : List LockOwner)
    → PickedBefore first picked (w ∷ rest)
    → PickedBefore first picked (w ∷ [])
PickedBefore-one first none w rest p = tt
PickedBefore-one first (some q) w rest (inl h) = inl h
PickedBefore-one first (some q) w rest (inr (h, apart)) = inr (h, ground arith)

PickedBefore-rest :
    (first : LockOwner) (picked : Option LockOwner) (w : LockOwner) (rest : List LockOwner)
    → PickedBefore first picked (w ∷ rest)
    → PickedBefore first picked rest
PickedBefore-rest first none w rest p = tt
PickedBefore-rest first (some q) w rest (inl h) = inl h
PickedBefore-rest first (some q) w rest (inr (h, apart)) = inr (h, ground arith)

-- An owner of the loop has not been picked before.
is_same_lem :
    (first : LockOwner) (picked : Option LockOwner) (w : LockOwner) (rest : List LockOwner)
    → is_owner w first ≡ false
    → PickedBefore first picked (w ∷ rest)
    → is_same picked w ≡ false
is_same_lem first none w rest out p = refl
is_same_lem first (some q) w rest out (inl h) = ground arith
is_same_lem first (some q) w rest out (inr (h, apart)) = ground arith

-- To unlock the owner behind the current one.
pub unlock_behind :
    (w : LockOwner) (rest : List LockOwner) (st : Waking) (hs : List ℕ)
    → has_owner w rest ≡ false
    → unlock_owner w (record st { held = heads rest (w.address ∷ hs) })
      ≡ some (record st { held = heads rest hs })
unfolding unlock_owner
unlock_behind w [] st hs out = rw (eq→== w.address w.address refl) refl
unlock_behind w (x ∷ rest) st hs out =
    rw (or_false_left (is_owner w x) (has_owner w rest) out, eq→== w.address w.address refl) refl

module _ (lock : ℕ → Error → Error) (locks : (a : ℕ) (e : Error) → lock a e ≡ e) where
  lock_owner_lem :
      (owner : LockOwner) (st : Waking)
      → is_set st.error ≡ false
      → lock_owner lock owner st ≡ record st { held = owner.address ∷ st.held }
  unfolding lock_owner
  lock_owner_lem owner st fine = rw (locks owner.address st.error, fine) refl

  abbrev with_held : Waking → List ℕ → Waking
  with_held st hs = record st { held = hs }

  pub next_locked_lem :
      (xs : List LockOwner) (st : Waking)
      → is_set st.error ≡ false
      → next_locked lock xs st ≡ with_held st (heads xs st.held)
  unfolding next_locked
  next_locked_lem [] st fine = refl
  next_locked_lem (x ∷ xs) st fine = lock_owner_lem x st fine

  module _ (first : LockOwner) where
    abbrev Picks : Option LockOwner → List LockOwner → Waking → List ℕ → Type 0
    Picks picked xs st hs =
        pick_from lock compare_longest_waiting first picked xs (with_held st hs)
        ≡ some (last_waiting picked xs, with_held st (base first (last_waiting picked xs)))

    choose_waiting :
        (picked : Option LockOwner) (w : LockOwner) (st : Waking)
        → is_owner w first ≡ false
        → PickedBefore first picked (w ∷ [])
        → choose lock compare_longest_waiting first picked w
            (with_held st (w.address ∷ base first picked))
          ≡ some (some w, with_held st (w.address ∷ first.address ∷ []))
    unfolding choose unlock_if unlock_owner
    choose_waiting none w st out p = refl
    choose_waiting (some q) w st out (inl is_first) = rw is_first refl
    choose_waiting (some q) w st out (inr (not_first, apart)) =
        rw (not_first, or_false_left (is_owner q w) false apart, eq→== q.address q.address refl)
          refl

    -- The loop, with the mutex of the current owner in front.
    pick_from-later :
        (picked : Option LockOwner) (xs : List LockOwner) (st : Waking)
        → is_set st.error ≡ false
        → AllDistinct xs
        → has_owner first xs ≡ false
        → PickedBefore first picked xs
        → Picks picked xs st (heads xs (base first picked))
    unfolding pick_from unlock_if
    pick_from-later picked [] st fine d out p = refl
    pick_from-later picked (w ∷ rest) st fine (dw, d) out p =
        let (first_w, first_rest) = or_false_both (is_owner first w) (has_owner first rest) out in
        let w_first = is_owner-sym first w first_w in
        elim (Bool-cases (has_flag lock_owner_wt w)) [
          | inl waits ↦
              rw
                (
                  waits,
                  choose_waiting picked w st w_first (PickedBefore-one first picked w rest p),
                  next_locked_lem rest (with_held st (w.address ∷ first.address ∷ [])) fine,
                  fine,
                  eq→== w.address w.address refl,
                )
                (subst (λ hs. Picks (some w) rest st (heads rest hs))
                  (if_false (is_owner w first) _ _ w_first)
                  (pick_from-later (some w) rest st fine d first_rest (inr (w_first, dw))))
          | inr idle ↦
              rw
                (
                  idle,
                  next_locked_lem rest (with_held st (w.address ∷ base first picked)) fine,
                  fine,
                  is_same_lem first picked w rest w_first p,
                  w_first,
                  unlock_behind w rest st (base first picked) dw,
                )
                (pick_from-later picked rest st fine d first_rest
                  (PickedBefore-rest first picked w rest p))
        ]

    pub pick_waiter_lem :
        (rest : List LockOwner) (st : Waking)
        → is_set st.error ≡ false
        → AllDistinct (first ∷ rest)
        → pick_waiter lock compare_longest_waiting first rest (with_held st (first.address ∷ []))
          ≡ some (
            last_waiting none (first ∷ rest),
            with_held st (base first (last_waiting none (first ∷ rest))),
          )
    unfolding pick_waiter pick_from choose unlock_if
    pick_waiter_lem rest st fine (out, d) =
        let self = eq→== first.address first.address refl in
        let locked = next_locked_lem rest (with_held st (first.address ∷ [])) fine in
        elim (Bool-cases (has_flag lock_owner_wt first)) [
          | inl waits ↦
              rw (waits, locked, fine, self)
                (subst (λ hs. Picks (some first) rest st (heads rest hs))
                  (if_true (is_owner first first) _ _ self)
                  (pick_from-later (some first) rest st fine d out (inl self)))
          | inr idle ↦ rw (idle, locked, fine, self) (pick_from-later none rest st fine d out tt)
        ]
