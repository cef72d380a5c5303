-- ===== src/Table/Walk.antt =====
-- src/table.c: the walks, over call-backs that pass one element unless they fail. That is what every
-- call-back of src/picotm_tx.c does.
use picotm.Prelude.{
  ℕ, zero, suc, ◌+◌, ◌≤◌, ◌<◌, ◌≡◌, refl, some, List, [], ◌∷◌, length, drop, arith, if◌then◌else◌,
}
use picotm.Module.{Run, failed}
use picotm.Table.{walk_from, tabwalk_1, walk_data_from, tabwalk_2}

module _ {S A : Type 0} where
  -- The call-back of one element, as the callers of the walks define it: one element, or none if it
  -- failed.
  abbrev pub one_each : (A → Run S → Run S) → A → Run S → ℕ × Run S
  one_each f x r = let r' = f x r in (if failed r' then 0 else 1, r')

  -- Make the calls in order, and stop after the first that fails.
  abbrev pub each : (A → Run S → Run S) → List A → Run S → Run S
  each f [] r = r
  each f (x ∷ xs) r = let r' = f x r in if failed r' then r' else each f xs r'

  -- How many of the calls came back without an error.
  abbrev pub passed : (A → Run S → Run S) → List A → Run S → ℕ
  passed f [] r = 0
  passed f (x ∷ xs) r = let r' = f x r in if failed r' then 0 else suc (passed f xs r')

  walk_from-one_each :
      (f : A → Run S → Run S) (fuel : ℕ) (xs : List A) (pos : ℕ) (r : Run S)
      → length xs < fuel
      → walk_from fuel xs (one_each f) pos r ≡ some (pos + passed f xs r, each f xs r)
  unfolding walk_from
  walk_from-one_each f zero xs pos r h = elim h [ ]
  walk_from-one_each f (suc fuel) [] pos r h = ground arith
  walk_from-one_each f (suc fuel) (x ∷ xs) pos r h =
      ground (arith, walk_from-one_each f fuel xs (pos + 1) (f x r))

  -- A walk whose call-back passes exactly one element, or fails, comes to an end with any fuel beyond the
  -- number of elements: it has made each call in order up to the first that fails, and answers how many
  -- came back without an error.
  pub tabwalk_1-one_each :
      (f : A → Run S → Run S) (fuel : ℕ) (xs : List A) (r : Run S)
      → length xs < fuel
      → tabwalk_1 fuel xs (one_each f) r ≡ some (passed f xs r, each f xs r)
  unfolding tabwalk_1
  tabwalk_1-one_each f fuel xs r h = ground (arith, walk_from-one_each f fuel xs 0 r)

  pub passed-le : (f : A → Run S → Run S) (xs : List A) (r : Run S) → passed f xs r ≤ length xs
  passed-le f [] r = omega arith
  passed-le f (x ∷ xs) r = ground (arith, passed-le f xs (f x r))

module _ {S A D : Type 0} where
  walk_data_from-walk_from :
      (fuel : ℕ) (xs : List A) (walk : A → D → Run S → ℕ × Run S) (arg : D) (pos : ℕ) (r : Run S)
      → walk_data_from fuel xs walk arg pos r ≡ walk_from fuel xs (λ x. walk x arg) pos r
  unfolding walk_data_from walk_from
  walk_data_from-walk_from zero xs walk arg pos r = refl
  walk_data_from-walk_from (suc fuel) [] walk arg pos r = refl
  walk_data_from-walk_from (suc fuel) (x ∷ xs) walk arg pos r = rw (
      walk_data_from-walk_from fuel (drop (walk x arg r).0 (x ∷ xs)) walk arg
        (pos + (walk x arg r).0) (walk x arg r).1)

  -- The walk with an argument is the walk over the call-back that is given the argument.
  pub tabwalk_2-tabwalk_1 :
      (fuel : ℕ) (xs : List A) (walk : A → D → Run S → ℕ × Run S) (arg : D) (r : Run S)
      → tabwalk_2 fuel xs walk arg r ≡ tabwalk_1 fuel xs (λ x. walk x arg) r
  unfolding tabwalk_1 tabwalk_2
  tabwalk_2-tabwalk_1 fuel xs walk arg r = walk_data_from-walk_from fuel xs walk arg 0 r
