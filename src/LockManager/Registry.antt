-- ===== src/LockManager/Registry.antt =====
-- src/picotm_lock_manager.c: registration hands out a free index, never 0, and gives it back.
use picotm.Prelude.{
  ℕ, zero, suc, ◌+◌, ◌-◌, ◌≤◌, ◌<◌, ◌≡◌, ◌≢◌, refl, ap, arith, Bool, false, Option, none, some,
  List, [], ◌∷◌, ◌++◌, length, get_elem?, set, length-append, take-length, some-injective,
  none-ne-some, ◌==◌, if◌then◌else◌,
}
use native.Mathlib.Nat.{zero-add}
use picotm.Error.{Error, is_set}
use picotm.LockManager.{
  LockManager, nlos, is_zero, is_nonzero, nulls, lfind_null, Found, grow_lo_array, found_or_grow,
  find_lo,
}

-- What lfind() finds is a null pointer.
lfind_null-some :
    (xs : List (Option ℕ)) (i : ℕ) → lfind_null xs ≡ some i → get_elem? xs i ≡ some none
unfolding lfind_null
lfind_null-some [] i h = cc
lfind_null-some (none ∷ rest) i h = ground arith
lfind_null-some (some a ∷ rest) zero h = absurd (ground arith)
lfind_null-some (some a ∷ rest) (suc i) h = lfind_null-some rest i (ground arith)

get_elem?-snoc :
    (xs : List (Option ℕ)) (v : Option ℕ) → get_elem? (xs ++ v ∷ []) (length xs) ≡ some v
get_elem?-snoc [] v = refl
get_elem?-snoc (x ∷ xs) v = get_elem?-snoc xs v

pub get_elem?-lt :
    (xs : List (Option ℕ)) (i : ℕ) (v : Option ℕ) → get_elem? xs i ≡ some v → i < length xs
get_elem?-lt [] i v h = cc
get_elem?-lt (x ∷ xs) zero v h = omega arith
get_elem?-lt (x ∷ xs) (suc i) v h = omega (arith, get_elem?-lt xs i v h)

-- The owner that stands at an index of the array: none for a null pointer and behind the end.
abbrev pub holder : List (Option ℕ) → ℕ → Option ℕ
holder [] j = none
holder (x ∷ xs) zero = x
holder (x ∷ xs) (suc j) = holder xs j

holder-nulls : (n j : ℕ) → holder (nulls n) j ≡ none
holder-nulls zero j = refl
holder-nulls (suc n) zero = refl
holder-nulls (suc n) (suc j) = holder-nulls n j

holder-append_nulls :
    (n : ℕ) (xs : List (Option ℕ)) (j : ℕ) → holder (xs ++ nulls n) j ≡ holder xs j
holder-append_nulls n [] j = holder-nulls n j
holder-append_nulls n (x ∷ xs) zero = refl
holder-append_nulls n (x ∷ xs) (suc j) = holder-append_nulls n xs j

pub holder-get_elem? :
    (xs : List (Option ℕ)) (i : ℕ) (v : Option ℕ) → get_elem? xs i ≡ some v → holder xs i ≡ v
holder-get_elem? [] i v h = absurd (none-ne-some v h)
holder-get_elem? (x ∷ xs) zero v h = some-injective x v h
holder-get_elem? (x ∷ xs) (suc i) v h = holder-get_elem? xs i v h

pub holder-set :
    (xs : List (Option ℕ)) (i j : ℕ) (v : Option ℕ)
    → i < length xs
    → holder (set xs i v) j ≡ (if j == i then v else holder xs j)
holder-set [] i j v h = elim h [ ]
holder-set (x ∷ xs) zero zero v h = refl
holder-set (x ∷ xs) zero (suc j) v h = ground arith
holder-set (x ∷ xs) (suc i) zero v h = ground arith
holder-set (x ∷ xs) (suc i) (suc j) v h = ground (arith, holder-set xs i j v)

is_nonzero_pos : (n : ℕ) → 0 < n → is_nonzero n ≡ 1
is_nonzero_pos n h = ground arith

is_zero_pos : (n : ℕ) → 0 < n → is_zero n ≡ 0
is_zero_pos n h = ground arith

one_more : (n : ℕ) → 0 < n → nulls (is_zero n + n + 1 - n) ≡ none ∷ []
one_more n h = let k : is_zero n + n + 1 - n ≡ 1 = ground (arith, is_zero_pos n h) in rw k

minus_one : (n : ℕ) → suc n - 1 ≡ n
minus_one n = omega arith

one_add : (n : ℕ) → 1 + n ≡ suc n
one_add n = omega arith

-- The array is empty, or has its unused first element and more.
pub record IsValid (self : LockManager) : Type 0 where
  pub magic : nlos self ≢ 1

-- A free position behind the first element, in an array that keeps what it held.
pub record Free (self : LockManager) (f : Found) : Type 0 where
  pub slot : get_elem? f.lm.owners f.pos ≡ some none
  pub behind : 0 < f.pos
  pub longer : nlos self ≤ nlos f.lm
  pub exclusive : f.lm.exclusive_lo ≡ self.exclusive_lo
  pub kept : (j : ℕ) → holder f.lm.owners j ≡ holder self.owners j

module _ (realloc : Option ℕ → ℕ → Option ℕ × ℕ) (s_lowmem : Bool) (errno : ℕ) (p x : Option ℕ)
    (e : Error) where
  abbrev pub manager : List (Option ℕ) → LockManager
  manager xs = record { lo = p; owners = xs; exclusive_lo = x }

  -- What the array holds after it has grown.
  grow-owners :
      (xs : List (Option ℕ))
      → is_set (grow_lo_array realloc s_lowmem errno (manager xs) e).error ≡ false
      → ((grow_lo_array realloc s_lowmem errno (manager xs) e).lm.owners
          ≡ xs ++ nulls (is_zero (length xs) + length xs + 1 - length xs))
        × ((grow_lo_array realloc s_lowmem errno (manager xs) e).lm.exclusive_lo ≡ x)
  unfolding grow_lo_array
  grow-owners xs ok = ground arith

  -- The search leaves out the first element of an array that is not empty.
  find_lo-search :
      (y z : Option ℕ) (xs : List (Option ℕ))
      → find_lo realloc s_lowmem errno (manager (y ∷ z ∷ xs)) e
        ≡ found_or_grow realloc s_lowmem errno (manager (y ∷ z ∷ xs)) e 1 (lfind_null (z ∷ xs))
  unfolding find_lo
  find_lo-search y z xs = rw (
    is_nonzero_pos (suc (suc (length xs))) (omega arith),
    minus_one (suc (length xs)),
    is_nonzero_pos (suc (length xs)) (omega arith),
    take-length (z ∷ xs),
  )

  grown-Free :
      (y z : Option ℕ) (xs : List (Option ℕ))
      → is_set (grow_lo_array realloc s_lowmem errno (manager (y ∷ z ∷ xs)) e).error ≡ false
      → Free (manager (y ∷ z ∷ xs)) (record {
        grown = grow_lo_array realloc s_lowmem errno (manager (y ∷ z ∷ xs)) e;
        pos = is_zero (suc (suc (length xs))) + suc (suc (length xs));
      })
  grown-Free y z xs ok = record {
    slot = rw (own, is_zero_pos n (omega arith), zero-add) (get_elem?-snoc all none);
    behind = omega arith;
    longer = omega (arith, ap (length {A = Option ℕ}) own, length-append all (none ∷ []));
    exclusive = (grow-owners all ok).1;
    kept = λ j. rw own (holder-append_nulls 1 all j);
  }
    where
      all : List (Option ℕ)
      all = y ∷ z ∷ xs

      n : ℕ
      n = suc (suc (length xs))

      own :
          (grow_lo_array realloc s_lowmem errno (manager (y ∷ z ∷ xs)) e).lm.owners
          ≡ (y ∷ z ∷ xs) ++ none ∷ []
      own = rw (← one_more n (omega arith)) ((grow-owners (y ∷ z ∷ xs) ok).0)

  hit-Free :
      (y z : Option ℕ) (xs : List (Option ℕ)) (hit : Option ℕ)
      → lfind_null (z ∷ xs) ≡ hit
      → is_set (found_or_grow realloc s_lowmem errno (manager (y ∷ z ∷ xs)) e 1 hit).error ≡ false
      → Free
          (manager (y ∷ z ∷ xs))
          (found_or_grow realloc s_lowmem errno (manager (y ∷ z ∷ xs)) e 1 hit)
  unfolding found_or_grow
  hit-Free y z xs none h ok = grown-Free y z xs ok
  hit-Free y z xs (some i) h ok = record {
    slot = rw (one_add i) (lfind_null-some (z ∷ xs) i h);
    behind = omega arith;
    longer = omega arith;
    exclusive = refl;
    kept = λ j. refl;
  }

  pub find_lo-Free :
      (xs : List (Option ℕ))
      → length xs ≢ 1
      → is_set (find_lo realloc s_lowmem errno (manager xs) e).error ≡ false
      → Free (manager xs) (find_lo realloc s_lowmem errno (manager xs) e)
  find_lo-Free [] v ok =
      unfold find_lo found_or_grow lfind_null in
      (record {
        slot = rw (grow-owners [] ok).0;
        behind = omega arith;
        longer = omega arith;
        exclusive = (grow-owners [] ok).1;
        kept = λ j. rw (grow-owners [] ok).0 (holder-nulls 2 j);
      })
  find_lo-Free (y ∷ []) v ok = absurd (v refl)
  find_lo-Free (y ∷ z ∷ xs) v ok =
      rw (find_lo-search y z xs)
        (hit-Free y z xs (lfind_null (z ∷ xs)) refl (rw (find_lo-search y z xs) at ok))
